-- ===== src/MMap/Attributes.antt =====
-- The attribute lines of a mapping, such as `Rss:   1234 kB`, whose size has several digits.
use libsysinfo.Boost.Pattern.{Matches, any}
use libsysinfo.Boost.{Boost, IsBoost, StopsAtEnd}
use libsysinfo.MMap.State.{MMap}
use libsysinfo.MMap.{regex_key_value, regex_value, read_attribute, store_pair, store_value}
use libsysinfo.Prelude.{
  ℕ, ◌==◌, ◌≡◌, ◌≢◌, refl, sym, ap, ◌∙◌, true, List, [], ◌∷◌, ◌++◌, append-nil, none, some,
  Option-cases, inl, inr, ok, arith,
}
use libsysinfo.Text.{
  Bytes, codes, is_space, is_digit, is_alpha, AllOf, Stops, take_while, drop_while, take_while-run,
  drop_while-run,
}

abbrev pub attribute_line : Bytes → Bytes → Bytes → Bytes
attribute_line key blanks text = key ++ b':' ∷ (blanks ++ text)

-- Two runs of blanks before a text: the second leaves some blanks and the text.
blanks-prefix :
    (blanks text run rest : Bytes)
    → AllOf is_space blanks
    → Stops is_space text
    → AllOf is_space run
    → blanks ++ text ≡ run ++ rest
    → (l : Bytes) × (rest ≡ l ++ text) × AllOf is_space l
blanks-prefix blanks text [] rest hb s hr e = (blanks, sym e, hb)
blanks-prefix [] [] (c ∷ run) rest hb s hr e = absurd (cc)
blanks-prefix [] (d ∷ text) (c ∷ run) rest hb s hr e = absurd (cc)
blanks-prefix (b ∷ blanks) text (c ∷ run) rest hb s hr e =
    blanks-prefix blanks text run rest hb.1 s hr.1 (cc)

colon-Stops : (c : ℕ) (s : Bytes) → (c == b':') ≡ true → Stops is_alpha (c ∷ s)
colon-Stops c s h = ground arith

after_colon : (c : ℕ) (s t : Bytes) → b':' ∷ s ≡ c ∷ t → s ≡ t
after_colon c s t h = cc

-- What the pattern of a line puts into its groups: the key, and the value with some of its blanks.
regex_key_value-groups :
    (key blanks text : Bytes) (caps : List Bytes)
    → AllOf is_alpha key
    → AllOf is_space blanks
    → Stops is_space text
    → Matches regex_key_value (attribute_line key blanks text) caps
    → (l : Bytes) × AllOf is_space l × (caps ≡ key ∷ (l ++ text) ∷ [])
regex_key_value-groups key blanks text caps hk hb s
      (
        run,
        rest,
        later,
        e,
        (ne, hr),
        k,
        (
          colon,
          rest2,
          e2,
          (c, one_colon, is_colon),
          (sp, rest3, e3, fits_sp, (v, rest4, later2, e4, fits_v, k2, (end, k3))),
        ),
      ) =
    let rest_is : rest ≡ c ∷ rest2 = e2 ∙ ap (λ (t : Bytes). t ++ rest2) one_colon in
    let e' : attribute_line key blanks text ≡ run ++ c ∷ rest2 =
      e ∙ ap (λ (t : Bytes). run ++ t) rest_is in
    let same_key : run ≡ key =
      sym (take_while-run is_alpha run (c ∷ rest2) hr (colon-Stops c rest2 is_colon))
      ∙ ap (take_while is_alpha) (sym e')
      ∙ take_while-run is_alpha key (b':' ∷ (blanks ++ text)) hk refl in
    let same_rest : b':' ∷ (blanks ++ text) ≡ c ∷ rest2 =
      sym (drop_while-run is_alpha key (b':' ∷ (blanks ++ text)) hk refl)
      ∙ ap (drop_while is_alpha) e'
      ∙ drop_while-run is_alpha run (c ∷ rest2) hr (colon-Stops c rest2 is_colon) in
    let (l, v_is, hl) =
      blanks-prefix blanks text sp rest3 hb s fits_sp.1
        (after_colon c (blanks ++ text) rest2 same_rest ∙ e3) in
    let value_is : v ≡ l ++ text =
      sym (append-nil v) ∙ ap (λ (t : Bytes). v ++ t) (sym end) ∙ sym e4 ∙ v_is in
    (
      l,
      hl,
      k
          ∙ ap (◌∷◌ run) (k2 ∙ ap (◌∷◌ v) k3 ∙ ap (λ (t : Bytes). t ∷ []) value_is)
          ∙ ap (λ (t : Bytes). t ∷ (l ++ text) ∷ []) same_key,
    )

-- the line is matched
attribute_line-Matches :
    (key blanks text : Bytes)
    → key ≢ []
    → AllOf is_alpha key
    → blanks ≢ []
    → AllOf is_space blanks
    → AllOf any text
    → Matches regex_key_value (attribute_line key blanks text) (key ∷ text ∷ [])
attribute_line-Matches key blanks text ne hk bne hb ht = (
  key,
  b':' ∷ (blanks ++ text),
  text ∷ [],
  refl,
  (ne, hk),
  refl,
  (
    codes ":",
    blanks ++ text,
    refl,
    (b':', refl, refl),
    (blanks, text, refl, (bne, hb), (text, [], [], sym (append-nil text), ht, refl, (refl, refl))),
  ),
)

AllOf-any : (s : Bytes) → AllOf any s
AllOf-any [] = tt
AllOf-any (c ∷ s) = (refl, AllOf-any s)

digit-Stops : (d : ℕ) (s : Bytes) → is_digit d ≡ true → Stops is_space (d ∷ s)
digit-Stops d s h = ground arith

digit-not-space : (d : ℕ) → is_digit d ≡ true → is_space d ≢ true
digit-not-space d h = ground arith

second : (d e : ℕ) (s : Bytes) (c c2 : ℕ) (t : Bytes) → d ∷ e ∷ s ≡ c ∷ c2 ∷ t → e ≡ c2
second d e s c c2 t h = cc

-- a size of several digits is none for the pattern, which allows one
second_digit :
    (d e : ℕ) (s : Bytes) (caps : List Bytes)
    → is_digit e ≡ true
    → ¬ Matches regex_value (d ∷ e ∷ s) caps
second_digit d e s caps h
      (
        run,
        rest,
        later,
        k,
        (c, one_run, is_run),
        _,
        (blank, rest2, k2, (c2, one_blank, is_blank), _),
      ) =
    digit-not-space e h (
      ap is_space (
        second d e s c c2 rest2 (
          k
          ∙ ap (λ (t : Bytes). t ++ rest) one_run
          ∙ ap (◌∷◌ c) (k2 ∙ ap (λ (t : Bytes). t ++ rest2) one_blank)))
      ∙ is_blank)

module _ (boost : Boost) (b : IsBoost boost) where
  regex_value-none :
      (d e : ℕ) (s : Bytes) → is_digit e ≡ true → boost.regex_match regex_value (d ∷ e ∷ s) ≡ none
  regex_value-none d e s h = elim (Option-cases (boost.regex_match regex_value (d ∷ e ∷ s))) [
    | inl k ↦ k
    | inr (caps, k) ↦
        absurd (second_digit d e s caps h (b.match_sound regex_value (d ∷ e ∷ s) caps k))
  ]

  -- the blanks that the match leaves before the value are trimmed
  store_pair-digits :
      (key l : Bytes) (d e : ℕ) (s : Bytes) (m : MMap)
      → AllOf is_space l
      → is_digit d ≡ true
      → is_digit e ≡ true
      → StopsAtEnd is_space (d ∷ e ∷ s)
      → store_pair boost (some (key ∷ (l ++ d ∷ e ∷ s) ∷ [])) m
        ≡ ok (record m { vmflags = boost.split (d ∷ e ∷ s) b' ' })
  store_pair-digits key l d e s m hl hd he hs =
      let trimmed : boost.trim (l ++ d ∷ e ∷ s) ≡ d ∷ e ∷ s =
        ap (λ (t : Bytes). boost.trim (l ++ t)) (sym (append-nil (d ∷ e ∷ s)))
        ∙ b.trim_blanks l (d ∷ e ∷ s) [] hl (digit-Stops d (e ∷ s) hd) hs tt in
      ap (λ (t : Bytes). store_value boost key t (boost.regex_match regex_value t) m) trimmed
      ∙ ap (λ o. store_value boost key (d ∷ e ∷ s) o m) (regex_value-none d e s he)

  -- A line of smaps with a key of letters and a value that begins with two digits and does not
  -- end in a blank, such as `Rss: 1234 kB`, sets none of the sizes: the value is taken for the
  -- VmFlags, and replaces them.
  pub read_attribute-digits :
      (key blanks : Bytes) (d e : ℕ) (s : Bytes) (m : MMap)
      → key ≢ []
      → AllOf is_alpha key
      → blanks ≢ []
      → AllOf is_space blanks
      → is_digit d ≡ true
      → is_digit e ≡ true
      → StopsAtEnd is_space (d ∷ e ∷ s)
      → read_attribute boost (attribute_line key blanks (d ∷ e ∷ s)) m
        ≡ ok (record m { vmflags = boost.split (d ∷ e ∷ s) b' ' })
  unfolding read_attribute
  read_attribute-digits key blanks d e s m ne hk bne hb hd he hs =
      let line = attribute_line key blanks (d ∷ e ∷ s) in
      elim (Option-cases (boost.regex_match regex_key_value line)) [
        | inl k ↦ absurd (
            b.match_complete regex_key_value line (key ∷ (d ∷ e ∷ s) ∷ [])
              (attribute_line-Matches key blanks (d ∷ e ∷ s) ne hk bne hb (AllOf-any (d ∷ e ∷ s)))
              k)
        | inr (caps, k) ↦
            let (l, hl, groups) =
              regex_key_value-groups key blanks (d ∷ e ∷ s) caps hk hb (digit-Stops d (e ∷ s) hd)
                (b.match_sound regex_key_value line caps k) in
            ap (λ o. store_pair boost o m) (k ∙ ap some groups)
            ∙ store_pair-digits key l d e s m hl hd he hs
      ]

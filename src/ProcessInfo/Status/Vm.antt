-- ===== src/ProcessInfo/Status/Vm.antt =====
-- The integer that readStatus takes from a line of /proc/<pid>/status, such as `VmRSS:  1234 kB`.
use libsysinfo.Boost.Pattern.{Matches}
use libsysinfo.Boost.{Boost, IsBoost}
use libsysinfo.Prelude.{
  ℕ, ◌^◌, ◌≤◌, ◌<◌, ◌≡◌, ◌≢◌, refl, sym, ap, ◌∙◌, Bool, true, List, [], ◌∷◌, ◌++◌, some,
  Option-cases, inl, inr, pos, ok, throw, out_of_range, arith,
}
use libsysinfo.ProcessInfo.State.{Status, VmField, vm_index, assign}
use libsysinfo.ProcessInfo.Status.{store_matched, store_vm, regex_vm}
use libsysinfo.Text.Decimal.{strtol-value, strtol_overflow}
use libsysinfo.Text.Number.{ten, stoi, value}
use libsysinfo.Text.{
  Bytes, codes, is_space, is_digit, AllOf, Stops, take_while, drop_while, take_while-run,
  drop_while-run,
}

-- The first byte is of the class.
abbrev pub Starts : (ℕ → Bool) → Bytes → Type 0
Starts p [] = ⊥
Starts p (c ∷ s) = p c ≡ true

Starts-append : (p : ℕ → Bool) (s t r : Bytes) → r ≡ s ++ t → s ≢ [] → AllOf p s → Starts p r
Starts-append p [] t r e ne a = absurd (ne refl)
Starts-append p (c ∷ s) t r e ne a = rw e a.0

digit-Stops : (s : Bytes) → Starts is_digit s → Stops is_space s
digit-Stops [] h = absurd h
digit-Stops (c ∷ s) h = ground arith

space-Stops : (s : Bytes) → Starts is_space s → Stops is_digit s
space-Stops [] h = absurd h
space-Stops (c ∷ s) h = ground arith

-- A match of the pattern has the first run of digits behind the blanks in its group.
regex_vm-group :
    (s : Bytes) (caps : List Bytes)
    → Matches regex_vm s caps
    → caps ≡ take_while is_digit (drop_while is_space s) ∷ []
regex_vm-group s caps
      (
        blanks,
        rest,
        e,
        fits_blanks,
        (
          digits,
          rest',
          later,
          e',
          fits_digits,
          k,
          (blank, rest'', e'', (c, one_blank, is_blank), m),
        ),
      ) =
    let starts = Starts-append is_digit digits rest' rest e' fits_digits.0 fits_digits.1 in
    let starts' : Starts is_space rest' =
      rw (e'' ∙ ap (λ (b : Bytes). b ++ rest'') one_blank) is_blank in
    k
    ∙ ap (◌∷◌ digits) m.4.4.4.1
    ∙ ap (λ (t : Bytes). t ∷ [])
        (sym (take_while-run is_digit digits rest' fits_digits.1 (space-Stops rest' starts'))
          ∙ ap (take_while is_digit) (
              sym e'
              ∙ sym (drop_while-run is_space blanks rest fits_blanks.1 (digit-Stops rest starts))
              ∙ ap (drop_while is_space) (sym e)))

-- The value of such a line: blanks, digits and the unit.
abbrev pub vm_text : Bytes → Bytes → Bytes
vm_text blanks digits = blanks ++ (digits ++ codes " kB")

vm_text-Matches :
    (blanks digits : Bytes)
    → blanks ≢ []
    → AllOf is_space blanks
    → digits ≢ []
    → AllOf is_digit digits
    → Matches regex_vm (vm_text blanks digits) (digits ∷ [])
vm_text-Matches blanks digits bne b dne d = (
  blanks,
  digits ++ codes " kB",
  refl,
  (bne, b),
  (
    digits,
    codes " kB",
    [],
    refl,
    (dne, d),
    refl,
    (
      codes " ",
      codes "kB",
      refl,
      (32, refl, refl),
      (
        codes "k",
        codes "B",
        refl,
        (b'k', refl, refl),
        (codes "B", [], refl, (b'B', refl, refl), ([], [], refl, tt, (refl, refl))),
      ),
    ),
  ),
)

digits_of_text :
    (blanks digits : Bytes)
    → AllOf is_space blanks
    → digits ≢ []
    → AllOf is_digit digits
    → take_while is_digit (drop_while is_space (vm_text blanks digits)) ≡ digits
digits_of_text blanks digits b dne d =
    ap (take_while is_digit) (
      drop_while-run is_space blanks (digits ++ codes " kB") b
        (digit-Stops _ (Starts-append is_digit digits (codes " kB") _ refl dne d)))
    ∙ take_while-run is_digit digits (codes " kB") d refl

regex_vm-vm_text :
    (boost : Boost) (b : IsBoost boost) (blanks digits : Bytes)
    → blanks ≢ []
    → AllOf is_space blanks
    → digits ≢ []
    → AllOf is_digit digits
    → boost.regex_match regex_vm (vm_text blanks digits) ≡ some (digits ∷ [])
regex_vm-vm_text boost b blanks digits bne hb dne hd =
    elim (Option-cases (boost.regex_match regex_vm (vm_text blanks digits))) [
      | inl e ↦ absurd (
          b.match_complete regex_vm (vm_text blanks digits) (digits ∷ [])
            (vm_text-Matches blanks digits bne hb dne hd) e)
      | inr (caps, e) ↦
          e
          ∙ ap some (
              regex_vm-group (vm_text blanks digits) caps
                (b.match_sound regex_vm (vm_text blanks digits) caps e)
              ∙ ap (λ (t : Bytes). t ∷ []) (digits_of_text blanks digits hb dne hd))
    ]

-- A value of blanks, digits and kB is stored if the number fits in an int. The member is an
-- unsigned long, but from 2 ^ 31 kB on the conversion throws, and the member keeps its value.
pub store_matched-vm_text :
    (boost : Boost) (b : IsBoost boost) (f : VmField) (st : Status) (blanks digits : Bytes)
    → blanks ≢ []
    → AllOf is_space blanks
    → digits ≢ []
    → AllOf is_digit digits
    → (value ten 0 digits < 2 ^ 31
        → store_matched f (boost.regex_match regex_vm (vm_text blanks digits)) st
          ≡ (ok tt, record st { vm = assign vm_index st.vm f (pos (value ten 0 digits)) }))
      × (2 ^ 31 ≤ value ten 0 digits
          → store_matched f (boost.regex_match regex_vm (vm_text blanks digits)) st
            ≡ (throw out_of_range, st))
unfolding stoi
store_matched-vm_text boost b f st blanks digits bne hb dne hd =
    let found =
      ap (λ o. store_matched f o st) (regex_vm-vm_text boost b blanks digits bne hb dne hd) in
    (
      (λ h. found ∙ ap (λ r. store_vm f r st) (strtol-value 31 digits dne hd h)),
      (λ h. found ∙ ap (λ r. store_vm f r st) (strtol_overflow 31 digits dne hd h)),
    )

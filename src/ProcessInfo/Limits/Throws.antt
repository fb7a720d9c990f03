-- ===== src/ProcessInfo/Limits/Throws.antt =====
-- The exceptions of readLimits.
use libsysinfo.Boost.Groups.{Matches-Groups}
use libsysinfo.Boost.Pattern.{Fits, word_or}
use libsysinfo.Boost.{Boost, IsBoost}
use libsysinfo.Prelude.{
  ◌≡◌, refl, List, [], ◌∷◌, some, Option-cases, Bool-cases, inl, inr, ℤ, Result, ok, throw,
  Exception, out_of_range, Result-cases,
}
use libsysinfo.ProcessInfo.Limits.{
  regex_limits, limit_value, with_values, matched_limits, read_limits_lines,
}
use libsysinfo.ProcessInfo.State.{Limits}
use libsysinfo.ProcessInfo.Status.Throws.{Fine, returns, Fine-throw, throw-Fine, stoi-IsNumber}
use libsysinfo.Text.{Bytes, codes, same_text, same_text_iff, is_digit}

limit_value-Fine :
    (s : Bytes) → Fits (word_or (codes "unlimited") is_digit) s → Fine (limit_value s)
unfolding limit_value
limit_value-Fine s (inl e) = rw ((same_text_iff s (codes "unlimited")).1 e) returns
limit_value-Fine s (inr h) = elim (Bool-cases (same_text s (codes "unlimited"))) [
  | inl e ↦ rw e returns
  | inr e ↦ rw e (stoi-IsNumber s h)
]

module _ (boost : Boost) (b : IsBoost boost) where
  with_values-Fine :
      (name : Bytes) (soft hard : Result ℤ) (l : Limits)
      → Fine soft
      → Fine hard
      → Fine (with_values boost name soft hard l).0
  with_values-Fine name (ok s) (ok h) l fs fh = returns
  with_values-Fine name (throw e) hard l fs fh = throw-Fine (Fine-throw fs refl)
  with_values-Fine name (ok s) (throw e) l fs fh = throw-Fine (Fine-throw fh refl)

  matched-Fine :
      (s : Bytes) (caps : List Bytes) (l : Limits)
      → boost.regex_match regex_limits s ≡ some caps
      → Fine (matched_limits boost (some caps) l).0
  matched-Fine s [] l e = returns
  matched-Fine s (a ∷ []) l e = returns
  matched-Fine s (a ∷ c ∷ []) l e = returns
  matched-Fine s (name ∷ soft ∷ hard ∷ []) l e =
      let (_, (fs, (fh, _))) =
        Matches-Groups regex_limits s (name ∷ soft ∷ hard ∷ [])
          (b.match_sound regex_limits s _ e) in
      with_values-Fine name (limit_value soft) (limit_value hard) l (limit_value-Fine soft fs)
        (limit_value-Fine hard fh)
  matched-Fine s (a ∷ c ∷ d ∷ f ∷ r) l e = returns

  line-Fine :
      (s : Bytes) (l : Limits) → Fine (matched_limits boost (boost.regex_match regex_limits s) l).0
  line-Fine s l = elim (Option-cases (boost.regex_match regex_limits s)) [
    | inl e ↦ rw e returns
    | inr (caps, e) ↦ rw e (matched-Fine s caps l e)
  ]

  read_limits_lines-Fine : (ls : List Bytes) (l : Limits) → Fine (read_limits_lines boost ls l).0
  unfolding read_limits_lines
  read_limits_lines-Fine [] l = returns
  read_limits_lines-Fine (s ∷ ls) l =
      let step = matched_limits boost (boost.regex_match regex_limits s) l in
      elim (Result-cases step.0) [
        | inl (t, e) ↦ rw (e, read_limits_lines) (read_limits_lines-Fine ls step.1)
        | inr (x, e) ↦ rw (e, read_limits_lines) (throw-Fine (Fine-throw (line-Fine s l) e))
      ]

  -- Whatever the file holds, readLimits throws nothing but out_of_range: what the pattern lets
  -- through is `unlimited` or a number.
  pub read_limits_lines_throws :
      (ls : List Bytes) (l : Limits) {e : Exception}
      → (read_limits_lines boost ls l).0 ≡ throw e
      → e ≡ out_of_range
  read_limits_lines_throws ls l h = Fine-throw (read_limits_lines-Fine ls l) h

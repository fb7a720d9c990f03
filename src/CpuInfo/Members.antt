-- ===== src/CpuInfo/Members.antt =====
-- Members of cpu_info_t whose value or key the kernel writes otherwise than readCPUInfo tests it: it
-- puts a blank behind every colon, and spells siblings, cpuid level, bogomips and cache_alignment
-- otherwise than the source.
use libsysinfo.Boost.{Boost}
use libsysinfo.CpuInfo.State.{CpuInfo, zero_cpu_info}
use libsysinfo.CpuInfo.{
  Action, branches, choose, store, set_member, read_line, read_lines, read_cpu_info,
}
use libsysinfo.Prelude.{
  ◌≡◌, refl, Bool, true, false, List, [], ◌∷◌, ◌++◌, some, ℤ, pos, Result, ok, throw, Result-cases,
  throw-ne-ok, ok-injective, Bool-cases, inl, inr, All, All-append, Exception,
}
use libsysinfo.Text.Lines.{before, after, lines}
use libsysinfo.Text.{Bytes, codes, same_text}

abbrev pub IsUnset : CpuInfo → Type 0
IsUnset c =
    (c.fpu ≡ false)
    × (c.fpu_exception ≡ false)
    × (c.wp ≡ false)
    × (c.siblings ≡ pos 0)
    × (c.cpuid_level ≡ pos 0)
    × (c.bogomips ≡ pos 0)
    × (c.cache_alignement ≡ pos 0)

-- The keys that the kernel does not write.
abbrev pub IsKernelKey : Bytes → Type 0
IsKernelKey key =
    (same_text key (codes "sibblings") ≡ false)
    × (same_text key (codes "cpuid_level") ≡ false)
    × (same_text key (codes "bogomipinfo") ≡ false)
    × (same_text key (codes "cache_alignement") ≡ false)

abbrev pub StartsBlank : Bytes → Type 0
StartsBlank [] = Unit
StartsBlank (c ∷ v) = c ≡ b' '

-- A blank line, or a key the kernel writes, a colon and a value behind a blank.
abbrev pub IsKernelLine : Boost → Bytes → Type 0
IsKernelLine boost l =
    IsKernelKey (boost.trim (before b':' l)) × StartsBlank (before b'\n' (after b':' l))

-- A result that leaves the members at zero, or an exception.
data Unset : Result CpuInfo → Type 0 where
  keeps : {c : CpuInfo} → IsUnset c → Unset (ok c)
  threw : {e : Exception} → Unset (throw e)

store-Unset : (r : Result ℤ) (f : ℤ → CpuInfo) → ((z : ℤ) → IsUnset (f z)) → Unset (store r f)
unfolding store
store-Unset (ok z) f h = keeps (h z)
store-Unset (throw e) f h = threw

-- a value behind a blank is never "yes"
not_yes : (v : Bytes) → StartsBlank v → same_text v (codes "yes") ≡ false
unfolding same_text
not_yes [] h = refl
not_yes (c ∷ v) h = rw h refl

excluded : {b : Bool} {X : Type 0} → b ≡ false → b ≡ true → X
excluded h k = absurd (cc)

-- A branch leaves the members at zero.
abbrev LeavesUnset : Bytes × Action → Type 0
LeavesUnset (name, action) =
    (key v : Bytes) (c : CpuInfo)
    → IsUnset c
    → IsKernelKey key
    → StartsBlank v
    → same_text key name ≡ true
    → Unset (action v c)

branches-LeavesUnset : All LeavesUnset branches
unfolding branches
branches-LeavesUnset = (
  λ key v c u k h e. store-Unset _ _ (λ z. u),
  (
    λ key v c u k h e. keeps u,
    (
      λ key v c u k h e. store-Unset _ _ (λ z. u),
      (
        λ key v c u k h e. store-Unset _ _ (λ z. u),
        (
          λ key v c u k h e. keeps u,
          (
            λ key v c u k h e. store-Unset _ _ (λ z. u),
            (
              λ key v c u k h e. store-Unset _ _ (λ z. u),
              (
                λ key v c u k h e. store-Unset _ _ (λ z. u),
                (
                  λ key v c u k h e. keeps u,
                  (
                    λ key v c u k h e. store-Unset _ _ (λ z. u),
                    (
                      λ key v c u k h e. excluded k.0 e,
                      (
                        λ key v c u k h e. store-Unset _ _ (λ z. u),
                        (
                          λ key v c u k h e. store-Unset _ _ (λ z. u),
                          (
                            λ key v c u k h e. store-Unset _ _ (λ z. u),
                            (
                              λ key v c u k h e. store-Unset _ _ (λ z. u),
                              (
                                λ key v c u k h e.
                                    keeps (not_yes v h, u.1, u.2, u.3, u.4, u.5, u.6),
                                (
                                  λ key v c u k h e.
                                      keeps (u.0, not_yes v h, u.2, u.3, u.4, u.5, u.6),
                                  (
                                    λ key v c u k h e. excluded k.1 e,
                                    (
                                      λ key v c u k h e.
                                          keeps (u.0, u.1, not_yes v h, u.3, u.4, u.5, u.6),
                                      (
                                        λ key v c u k h e. keeps u,
                                        (
                                          λ key v c u k h e. keeps u,
                                          (
                                            λ key v c u k h e. excluded k.2 e,
                                            (
                                              λ key v c u k h e. store-Unset _ _ (λ z. u),
                                              (
                                                λ key v c u k h e. excluded k.3 e,
                                                (
                                                  λ key v c u k h e. keeps u,
                                                  (λ key v c u k h e. keeps u, tt),
                                                ),
                                              ),
                                            ),
                                          ),
                                        ),
                                      ),
                                    ),
                                  ),
                                ),
                              ),
                            ),
                          ),
                        ),
                      ),
                    ),
                  ),
                ),
              ),
            ),
          ),
        ),
      ),
    ),
  ),
)

choose-Unset :
    (ms : List (Bytes × Action)) (key v : Bytes) (c : CpuInfo)
    → All LeavesUnset ms
    → IsUnset c
    → IsKernelKey key
    → StartsBlank v
    → Unset (choose ms key v c)
unfolding choose
choose-Unset [] key v c m u k h = keeps u
choose-Unset ((name, action) ∷ ms) key v c (m, more) u k h =
    elim (Bool-cases (same_text key name)) [
      | inl e ↦ rw e (m key v c u k h e)
      | inr e ↦ rw e (choose-Unset ms key v c more u k h)
    ]

read_line-Unset :
    (boost : Boost) (l : Bytes) (c : CpuInfo)
    → IsUnset c
    → IsKernelLine boost l
    → Unset (read_line boost l c)
unfolding read_line set_member
read_line-Unset boost l c u k = choose-Unset branches _ _ c branches-LeavesUnset u k.0 k.1

Unset-ok : {r : Result CpuInfo} {c : CpuInfo} → Unset r → r ≡ ok c → IsUnset c
Unset-ok (keeps u) e = rw (← ok-injective e) u
Unset-ok threw e = absurd (throw-ne-ok e)

read_lines-IsUnset :
    (boost : Boost) (ls : List Bytes) (cur : CpuInfo) (done : List CpuInfo) {cs : List CpuInfo}
    → All (IsKernelLine boost) ls
    → IsUnset cur
    → All IsUnset done
    → read_lines boost ls cur done ≡ ok cs
    → All IsUnset cs
unfolding read_lines
read_lines-IsUnset boost [] cur done k u d h = rw (← ok-injective h) d
read_lines-IsUnset boost ([] ∷ ls) cur done k u d h =
    read_lines-IsUnset boost ls zero_cpu_info (done ++ cur ∷ []) k.1
      (refl, refl, refl, refl, refl, refl, refl) (All-append _ done (cur ∷ []) d (u, tt)) h
read_lines-IsUnset boost ((c ∷ l) ∷ ls) cur done k u d h =
    elim (Result-cases (read_line boost (c ∷ l) cur)) [
      | inl (next, e) ↦
          read_lines-IsUnset boost ls next done k.1
            (Unset-ok (read_line-Unset boost (c ∷ l) cur u k.0) e) d (rw (e, read_lines) at h)
      | inr (x, e) ↦ absurd (throw-ne-ok (rw (e, read_lines) at h))
    ]

-- On a text whose keys are spelt as the kernel does and whose values stand behind a blank, if
-- readCPUInfo returns, the flags fpu, fpu_exception and wp are false in every record, whether the
-- processor has them or not, and siblings, cpuid_level, bogomips and cache_alignement are 0.
pub read_cpu_info-IsUnset :
    (boost : Boost) (s : Bytes) {cs : List CpuInfo}
    → All (IsKernelLine boost) (lines b'\n' s)
    → read_cpu_info boost (some s) ≡ ok cs
    → All IsUnset cs
unfolding read_cpu_info
read_cpu_info-IsUnset boost s k h =
    read_lines-IsUnset boost (lines b'\n' s) zero_cpu_info [] k
      (refl, refl, refl, refl, refl, refl, refl) tt h

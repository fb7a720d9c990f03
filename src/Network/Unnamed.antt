-- ===== src/Network/Unnamed.antt =====
-- getSocketUNIX on lines without a path.
use libsysinfo.Boost.Pattern.{Part, plain, group, one, Regex, Matches}
use libsysinfo.Boost.{Boost, IsBoost}
use libsysinfo.Network.State.{UnixSocket}
use libsysinfo.Network.{
  regex_unix, unix_socket, matched_unix, unix_line, with_number, read_table, get_socket_unix,
}
use libsysinfo.Prelude.{
  ℕ, zero, suc, ◌+◌, ◌≤◌, ◌≡◌, sym, ap, ◌∙◌, true, List, [], ◌∷◌, ◌++◌, length, length-append, some,
  Option-cases, inl, inr, arith, if◌then◌else◌, ltb, ℤ, Result, ok, throw, Result-cases,
  throw-ne-ok, ok-injective,
}
use libsysinfo.Text.Lines.{lines}
use libsysinfo.Text.Number.{ten, sixteen, stoi}
use libsysinfo.Text.{Bytes, is_space}

-- the blanks of a line
abbrev pub blanks : Bytes → ℕ
blanks [] = 0
blanks (c ∷ s) = if is_space c then suc (blanks s) else blanks s

blanks-append : (s t : Bytes) → blanks (s ++ t) ≡ blanks s + blanks t
blanks-append [] t = omega arith
blanks-append (c ∷ s) t = ground (arith, blanks-append s t)

-- How many of the parts are single blanks.
data Needs : Regex → ℕ → Type 0 where
  end : Needs [] zero
  skip : {r : Regex} {n : ℕ} (x : Part) → Needs r n → Needs (x ∷ r) n
  blank : {r : Regex} {n : ℕ} → Needs r n → Needs (plain (one is_space) ∷ r) (suc n)

rest-blanks : (n : ℕ) (s run rest : Bytes) → s ≡ run ++ rest → n ≤ blanks rest → n ≤ blanks s
rest-blanks n s run rest e h = omega (arith, ap blanks e, blanks-append run rest)

one_blank :
    (n c : ℕ) (s run rest : Bytes)
    → s ≡ run ++ rest
    → run ≡ c ∷ []
    → is_space c ≡ true
    → n ≤ blanks rest
    → suc n ≤ blanks s
one_blank n c s run rest e k h le =
    let b : blanks (c ∷ []) ≡ 1 = rw h in
    omega (arith, ap blanks e, blanks-append run rest, ap blanks k, b)

Matches-Needs :
    {r : Regex} {n : ℕ} (s : Bytes) (caps : List Bytes)
    → Needs r n
    → Matches r s caps
    → n ≤ blanks s
Matches-Needs s caps end m = omega arith
Matches-Needs s caps (skip {n} (plain x) d) (run, rest, e, f, m) =
    rest-blanks n s run rest e (Matches-Needs rest caps d m)
Matches-Needs s caps (skip {n} (group x) d) (run, rest, later, e, f, k, m) =
    rest-blanks n s run rest e (Matches-Needs rest later d m)
Matches-Needs s caps (blank {n} d) (run, rest, e, (c, k, h), m) =
    one_blank n c s run rest e k h (Matches-Needs rest caps d m)

regex_unix-Needs : Needs regex_unix 7
regex_unix-Needs = skip _ (
    skip _ (
      blank (
        skip _ (
          blank (
            skip _ (
              blank (
                skip _
                  (blank (skip _ (blank (skip _ (blank (skip _ (blank (skip _ end)))))))))))))))

-- A line that matches has seven blanks or more.
pub regex_unix-blanks : (l : Bytes) (caps : List Bytes) → Matches regex_unix l caps → 7 ≤ blanks l
regex_unix-blanks l caps m = Matches-Needs l caps regex_unix-Needs m

abbrev AtMostOne : {A : Type 0} → Result (List A) → Type 0
AtMostOne (ok ss) = length ss ≤ 1
AtMostOne (throw e) = Unit

with_number-AtMostOne :
    {A : Type 0} (r : Result ℤ) (f : ℤ → Result (List A))
    → ((z : ℤ) → AtMostOne (f z))
    → AtMostOne (with_number r f)
with_number-AtMostOne (ok z) f h = h z
with_number-AtMostOne (throw e) f h = tt

numbers-AtMostOne :
    (r1 r2 r3 r4 r5 r6 : Result ℤ) (make : ℤ → ℤ → ℤ → ℤ → ℤ → ℤ → UnixSocket)
    → AtMostOne (
        with_number r1 λ z1. with_number r2 λ z2. with_number r3 λ z3.
          with_number r4
            λ z4. with_number r5 λ z5. with_number r6 λ z6. ok (make z1 z2 z3 z4 z5 z6 ∷ []))
numbers-AtMostOne (throw e) r2 r3 r4 r5 r6 make = tt
numbers-AtMostOne (ok a) (throw e) r3 r4 r5 r6 make = tt
numbers-AtMostOne (ok a) (ok b) (throw e) r4 r5 r6 make = tt
numbers-AtMostOne (ok a) (ok b) (ok c) (throw e) r5 r6 make = tt
numbers-AtMostOne (ok a) (ok b) (ok c) (ok d) (throw e) r6 make = tt
numbers-AtMostOne (ok a) (ok b) (ok c) (ok d) (ok f) (throw e) make = tt
numbers-AtMostOne (ok a) (ok b) (ok c) (ok d) (ok f) (ok g) make = omega arith

unix_socket-AtMostOne : (caps : List Bytes) → AtMostOne (unix_socket caps)
unfolding unix_socket
unix_socket-AtMostOne [] = omega arith
unix_socket-AtMostOne (a ∷ []) = omega arith
unix_socket-AtMostOne (a ∷ b ∷ []) = omega arith
unix_socket-AtMostOne (a ∷ b ∷ c ∷ []) = omega arith
unix_socket-AtMostOne (a ∷ b ∷ c ∷ d ∷ []) = omega arith
unix_socket-AtMostOne (a ∷ b ∷ c ∷ d ∷ e ∷ []) = omega arith
unix_socket-AtMostOne (a ∷ b ∷ c ∷ d ∷ e ∷ f ∷ []) = omega arith
unix_socket-AtMostOne (a ∷ b ∷ c ∷ d ∷ e ∷ f ∷ g ∷ []) = omega arith
unix_socket-AtMostOne (a ∷ b ∷ c ∷ d ∷ e ∷ f ∷ g ∷ h ∷ []) =
    numbers-AtMostOne (stoi b sixteen) (stoi c ten) (stoi d ten) (stoi e ten) (stoi f ten)
      (stoi g ten)
      λ z1 z2 z3 z4 z5 z6. record {
        num = a;
        ref_count = z1;
        protocol = z2;
        flags = z3;
        kind = z4;
        state = z5;
        inode = z6;
        path = h;
      }
unix_socket-AtMostOne (a ∷ b ∷ c ∷ d ∷ e ∷ f ∷ g ∷ h ∷ i ∷ r) = omega arith

-- How many lines have as many blanks as the pattern asks for.
abbrev pub count_full : List Bytes → ℕ
count_full [] = 0
count_full (l ∷ ls) = (if ltb (blanks l) 7 then 0 else 1) + count_full ls

AtMostOne-ok :
    {A : Type 0} (r : Result (List A)) {ss : List A} → AtMostOne r → r ≡ ok ss → length ss ≤ 1
AtMostOne-ok (ok ts) h e = omega (arith, ap length (ok-injective e))
AtMostOne-ok (throw x) h e = absurd (throw-ne-ok e)

enough : (n m : ℕ) → 7 ≤ n → m ≤ 1 → m ≤ (if ltb n 7 then 0 else 1)
enough n m h k = ground arith

module _ (boost : Boost) (b : IsBoost boost) where
  unix_line-blanks :
      (l : Bytes) {ss : List UnixSocket}
      → unix_line boost l ≡ ok ss
      → length ss ≤ (if ltb (blanks l) 7 then 0 else 1)
  unix_line-blanks l {ss} h = elim (Option-cases (boost.regex_match regex_unix l)) [
    | inl e ↦ omega (arith, ap length (ok-injective (ap matched_unix (sym e) ∙ h)))
    | inr (caps, e) ↦
        enough (blanks l) (length ss) (regex_unix-blanks l caps (b.match_sound regex_unix l caps e))
          (AtMostOne-ok (unix_socket caps) (unix_socket-AtMostOne caps)
            (ap matched_unix (sym e) ∙ h))
  ]

  read_table-count_full :
      (ls : List Bytes) (found : List UnixSocket) {ss : List UnixSocket}
      → read_table (unix_line boost) ls found ≡ ok ss
      → length ss ≤ length found + count_full ls
  unfolding read_table
  read_table-count_full [] found h = omega (arith, ap length (ok-injective h))
  read_table-count_full (l ∷ ls) found h = elim (Result-cases (unix_line boost l)) [
    | inl (more, e) ↦ omega (
      arith,
      read_table-count_full ls (found ++ more) (rw (e, read_table) at h),
      length-append {0} found more,
      unix_line-blanks l e,
    )
    | inr (x, e) ↦ absurd (throw-ne-ok (rw (e, read_table) at h))
  ]

  -- If getSocketUNIX returns, it has found at most one socket for each line with seven blanks or more:
  -- a line with fewer adds none.
  pub get_socket_unix-count_full :
      (s : Bytes) {ss : List UnixSocket}
      → get_socket_unix boost (some s) ≡ ok ss
      → length ss ≤ count_full (lines b'\n' s)
  unfolding get_socket_unix
  get_socket_unix-count_full s h = omega (arith, read_table-count_full (lines b'\n' s) [] h)

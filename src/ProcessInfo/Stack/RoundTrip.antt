-- ===== src/ProcessInfo/Stack/RoundTrip.antt =====
-- readStack on lines as the kernel writes them.
use libsysinfo.Boost.Groups.{AllOf-any, Run, run_unique, one-Stops, one_rest}
use libsysinfo.Boost.Pattern.{Matches}
use libsysinfo.Boost.{Boost, IsBoost}
use libsysinfo.Prelude.{
  ℕ, ◌≡◌, refl, sym, ap, ◌∙◌, true, false, List, [], ◌∷◌, ◌++◌, append_assoc, append-nil, map, All,
  some, Option-cases, inl, inr, arith, ◌==◌,
}
use libsysinfo.ProcessInfo.Io.{lines_of}
use libsysinfo.ProcessInfo.Stack.{regex_stack, stack_func, read_stack_lines, read_stack}
use libsysinfo.ProcessInfo.State.{Os, ProcessInfo, StackFunc}
use libsysinfo.Text.Lines.{unlines, Lacks, lines-unlines}
use libsysinfo.Text.{Bytes, codes, is_xdigit, AllOf}

-- [<address>] function
abbrev pub stack_line : StackFunc → Bytes
stack_line f = b'[' ∷ b'<' ∷ (f.address ++ b'>' ∷ b']' ∷ b' ' ∷ f.function)

bracket-not-xdigit : (c : ℕ) → (c == b'>') ≡ true → is_xdigit c ≡ false
bracket-not-xdigit c h = ground arith

stack_line-Matches :
    (f : StackFunc)
    → Run is_xdigit f.address
    → Matches regex_stack (stack_line f) (f.address ∷ f.function ∷ [])
stack_line-Matches f h =
    let s3 = b'>' ∷ b']' ∷ b' ' ∷ f.function in
    (
      codes "[",
      b'<' ∷ (f.address ++ s3),
      refl,
      (b'[', refl, refl),
      (
        codes "<",
        f.address ++ s3,
        refl,
        (b'<', refl, refl),
        (
          f.address,
          s3,
          f.function ∷ [],
          refl,
          h,
          refl,
          (
            codes ">",
            b']' ∷ b' ' ∷ f.function,
            refl,
            (b'>', refl, refl),
            (
              codes "]",
              b' ' ∷ f.function,
              refl,
              (b']', refl, refl),
              (
                codes " ",
                f.function,
                refl,
                (b' ', refl, refl),
                (
                  f.function,
                  [],
                  [],
                  sym (append-nil f.function),
                  AllOf-any f.function,
                  refl,
                  (refl, refl),
                ),
              ),
            ),
          ),
        ),
      ),
    )

regex_stack-groups :
    (f : StackFunc) (caps : List Bytes)
    → AllOf is_xdigit f.address
    → Matches regex_stack (stack_line f) caps
    → caps ≡ f.address ∷ f.function ∷ []
regex_stack-groups f caps h
      (
        g1,
        s1,
        e1,
        (c1, x1, y1),
        (
          g2,
          s2,
          e2,
          (c2, x2, y2),
          (
            g3,
            s3,
            l3,
            e3,
            f3,
            k3,
            (
              g4,
              s4,
              e4,
              (c4, x4, y4),
              (
                g5,
                s5,
                e5,
                (c5, x5, y5),
                (g6, s6, e6, (c6, x6, y6), (g7, s7, l7, e7, f7, k7, (end, k8))),
              ),
            ),
          ),
        ),
      ) =
    let t1 = one_rest (stack_line f) g1 s1 _ c1 b'[' refl e1 x1 in
    let t2 = one_rest s1 g2 s2 _ c2 b'<' t1 e2 x2 in
    let (r3, t3) =
      run_unique is_xdigit g3 s3 f.address _ f3.1 h
        (one-Stops is_xdigit (λ c. c == b'>') s3 g4 s4 c4 bracket-not-xdigit x4 y4 e4) refl
        (sym t2 ∙ e3) in
    let t4 = one_rest s3 g4 s4 _ c4 b'>' t3 e4 x4 in
    let t5 = one_rest s4 g5 s5 _ c5 b']' t4 e5 x5 in
    let t6 = one_rest s5 g6 s6 _ c6 b' ' t5 e6 x6 in
    let function : g7 ≡ f.function =
      sym (append-nil g7) ∙ ap (λ t. g7 ++ t) (sym end) ∙ sym e7 ∙ t6 in
    cc

module _ (boost : Boost) (b : IsBoost boost) where
  stack_func-line :
      (f : StackFunc)
      → Run is_xdigit f.address
      → stack_func (boost.regex_match regex_stack (stack_line f)) ≡ f ∷ []
  stack_func-line f h = elim (Option-cases (boost.regex_match regex_stack (stack_line f))) [
    | inl e ↦ absurd (
        b.match_complete regex_stack (stack_line f) (f.address ∷ f.function ∷ [])
          (stack_line-Matches f h) e)
    | inr (caps, e) ↦ ap stack_func (
        e
        ∙ ap some (regex_stack-groups f caps h.1 (b.match_sound regex_stack (stack_line f) caps e)))
  ]

  read_stack_lines-append :
      (fs stack : List StackFunc)
      → All (λ (f : StackFunc). Run is_xdigit f.address) fs
      → read_stack_lines boost (map stack_line fs) stack ≡ stack ++ fs
  unfolding read_stack_lines
  read_stack_lines-append [] stack h = sym (append-nil stack)
  read_stack_lines-append (f ∷ fs) stack h =
      ap (λ x. read_stack_lines boost (map stack_line fs) (stack ++ x)) (stack_func-line f h.0)
      ∙ read_stack_lines-append fs (stack ++ f ∷ []) h.1
      ∙ append_assoc stack (f ∷ []) fs

  -- If /proc/<pid>/stack holds functions as the kernel writes them, each with an address of
  -- hexadecimal digits, then readStack puts exactly these behind those that were there.
  pub read_stack-append :
      (os : Os) (p : ProcessInfo) (fs : List StackFunc)
      → os.open_file (p.proc_path ++ codes "/stack") ≡ some (unlines b'\n' (map stack_line fs))
      → All (λ (f : StackFunc). Run is_xdigit f.address) fs
      → All (Lacks b'\n') (map stack_line fs)
      → read_stack boost os p ≡ record p { stack = p.stack ++ fs }
  unfolding read_stack
  read_stack-append os p fs e h lacks =
      ap (λ x. record p { stack = x })
        (ap (λ ls. read_stack_lines boost ls p.stack)
            (ap lines_of e ∙ lines-unlines b'\n' (map stack_line fs) lacks)
          ∙ read_stack_lines-append fs p.stack h)

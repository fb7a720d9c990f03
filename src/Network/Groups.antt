-- ===== src/Network/Groups.antt =====
-- The groups of regex_tcp on a line of /proc/net/tcp.
use libsysinfo.Boost.Groups.{Run, run_unique, Run-Stops, one-Stops, one_rest, Run-append-Stops}
use libsysinfo.Boost.Pattern.{Matches}
use libsysinfo.Network.{regex_tcp}
use libsysinfo.Prelude.{ℕ, ◌≡◌, refl, sym, ◌∙◌, true, false, List, [], ◌∷◌, ◌++◌, ◌==◌, arith}
use libsysinfo.Text.{Bytes, is_space, is_digit, is_xdigit, AllOf}

-- blanks sl: address:port address:port, and the rest
abbrev pub tcp_text : (blanks num la lp ra rp rest : Bytes) → Bytes
tcp_text blanks num la lp ra rp rest =
    blanks ++ (num ++ b':' ∷ b' ' ∷ (la ++ b':' ∷ (lp ++ b' ' ∷ (ra ++ b':' ∷ (rp ++ rest)))))

digit-not-space : (c : ℕ) → is_digit c ≡ true → is_space c ≡ false
digit-not-space c h = ground arith

xdigit-not-space : (c : ℕ) → is_xdigit c ≡ true → is_space c ≡ false
xdigit-not-space c h = ground arith

colon-not-digit : (c : ℕ) → (c == b':') ≡ true → is_digit c ≡ false
colon-not-digit c h = ground arith

colon-not-xdigit : (c : ℕ) → (c == b':') ≡ true → is_xdigit c ≡ false
colon-not-xdigit c h = ground arith

space-not-xdigit : (c : ℕ) → is_space c ≡ true → is_xdigit c ≡ false
space-not-xdigit c h = ground arith

-- The groups are the fields of the line, but for the last, which is some first part of its text.
pub regex_tcp-groups :
    (blanks num la lp ra tail : Bytes) (caps : List Bytes)
    → AllOf is_space blanks
    → Run is_digit num
    → AllOf is_xdigit la
    → AllOf is_xdigit lp
    → AllOf is_xdigit ra
    → Matches regex_tcp
        (blanks ++ (num ++ b':' ∷ b' ' ∷ (la ++ b':' ∷ (lp ++ b' ' ∷ (ra ++ b':' ∷ tail)))))
        caps
    → (port : Bytes) × (rest : Bytes) × (caps ≡ num ∷ la ∷ lp ∷ ra ∷ port ∷ [])
      × Run is_xdigit port
      × (tail ≡ port ++ rest)
regex_tcp-groups blanks num la lp ra tail caps hb hn hla hlp hra
      (
        g1,
        s1,
        e1,
        f1,
        (
          g2,
          s2,
          l2,
          e2,
          f2,
          k2,
          (
            g3,
            s3,
            e3,
            (c3, x3, y3),
            (
              g4,
              s4,
              e4,
              (c4, x4, y4),
              (
                g5,
                s5,
                l5,
                e5,
                f5,
                k5,
                (
                  g6,
                  s6,
                  e6,
                  (c6, x6, y6),
                  (
                    g7,
                    s7,
                    l7,
                    e7,
                    f7,
                    k7,
                    (
                      g8,
                      s8,
                      e8,
                      (c8, x8, y8),
                      (
                        g9,
                        s9,
                        l9,
                        e9,
                        f9,
                        k9,
                        (
                          g10,
                          s10,
                          e10,
                          (c10, x10, y10),
                          (g11, s11, l11, e11, f11, k11, (g12, s12, e12, f12, (end, k13))),
                        ),
                      ),
                    ),
                  ),
                ),
              ),
            ),
          ),
        ),
      ) =
    let (_, t1) =
      run_unique is_space g1 s1 blanks _ f1.1 hb
        (Run-Stops is_space is_digit s1 g2 s2 digit-not-space f2 e2)
        (Run-append-Stops is_space is_digit num _ digit-not-space hn) e1 in
    let (r2, t2) =
      run_unique is_digit g2 s2 num _ f2.1 hn.1
        (one-Stops is_digit (λ c. c == b':') s2 g3 s3 c3 colon-not-digit x3 y3 e3) refl
        (sym t1 ∙ e2) in
    let t3 = one_rest s2 g3 s3 _ c3 b':' t2 e3 x3 in
    let t4 = one_rest s3 g4 s4 _ c4 b' ' t3 e4 x4 in
    let (r5, t5) =
      run_unique is_xdigit g5 s5 la _ f5.1 hla
        (one-Stops is_xdigit (λ c. c == b':') s5 g6 s6 c6 colon-not-xdigit x6 y6 e6) refl
        (sym t4 ∙ e5) in
    let t6 = one_rest s5 g6 s6 _ c6 b':' t5 e6 x6 in
    let (r7, t7) =
      run_unique is_xdigit g7 s7 lp _ f7.1 hlp
        (one-Stops is_xdigit is_space s7 g8 s8 c8 space-not-xdigit x8 y8 e8) refl (sym t6 ∙ e7) in
    let t8 = one_rest s7 g8 s8 _ c8 b' ' t7 e8 x8 in
    let (r9, t9) =
      run_unique is_xdigit g9 s9 ra _ f9.1 hra
        (one-Stops is_xdigit (λ c. c == b':') s9 g10 s10 c10 colon-not-xdigit x10 y10 e10) refl
        (sym t8 ∙ e9) in
    let t10 = one_rest s9 g10 s10 _ c10 b':' t9 e10 x10 in (g11, s11, cc, f11, sym t10 ∙ e11)

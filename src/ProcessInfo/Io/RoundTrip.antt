-- ===== src/ProcessInfo/Io/RoundTrip.antt =====
-- readIo on the text that the kernel writes.
use native.Mathlib.Nat.{mod-eq_of_lt}
use libsysinfo.Boost.{Boost, IsBoost, StopsAtEnd}
use libsysinfo.Prelude.{
  ℕ, ◌^◌, ◌<◌, ◌≡◌, refl, sym, ap, ◌∙◌, false, List, [], ◌∷◌, ◌++◌, append-nil, some, pos, to_u64,
  Result, ok, throw, arith, All, All-append, ◌==◌,
}
use libsysinfo.ProcessInfo.Io.{store, set_io, read_io_line, read_io_lines, read_io, lines_of}
use libsysinfo.ProcessInfo.State.{Os, ProcessInfo, IoStat}
use libsysinfo.Text.Decimal.{
  to_string, to_string-AllOf, to_string-ne-nil, value-to_string, strtol-value,
}
use libsysinfo.Text.Lines.{
  before, after, before-append, after-append, unlines, Lacks, lines-unlines,
}
use libsysinfo.Text.Number.{ten, stol}
use libsysinfo.Text.{Bytes, codes, same_text, is_space, is_digit, AllOf, Stops}

-- A line: the key, a colon, a blank and the number.
abbrev pub io_line : Bytes → ℕ → Bytes
io_line key n = key ++ b':' ∷ b' ' ∷ to_string n

-- The lines for the counters.
abbrev pub io_lines : IoStat → List Bytes
io_lines io =
    io_line (codes "rchar") io.rchar
    ∷ io_line (codes "wchar") io.wchar
    ∷ io_line (codes "syscr") io.syscr
    ∷ io_line (codes "syscw") io.syscw
    ∷ io_line (codes "read_bytes") io.read_bytes
    ∷ io_line (codes "write_bytes") io.write_bytes
    ∷ io_line (codes "cancelled_write_bytes") io.cancelled_write_bytes
    ∷ []

stol-to_string : (n : ℕ) → n < 2 ^ 63 → stol (to_string n) ten ≡ ok (pos n)
unfolding stol
stol-to_string n h =
    strtol-value 63 (to_string n) (to_string-ne-nil n) (to_string-AllOf n)
      (rw (value-to_string n) h)
    ∙ ap (λ k. ok (pos k)) (value-to_string n)

pub digits-Lacks : (d : ℕ) (s : Bytes) → is_digit d ≡ false → AllOf is_digit s → Lacks d s
digits-Lacks d [] h a = tt
digits-Lacks d (c ∷ s) h a = (ground arith, digits-Lacks d s h a.1)

digits-Stops : (s : Bytes) → AllOf is_digit s → Stops is_space s
digits-Stops [] a = tt
digits-Stops (c ∷ s) a = ground arith

digits-StopsAtEnd : (s : Bytes) → AllOf is_digit s → StopsAtEnd is_space s
digits-StopsAtEnd [] a = tt
digits-StopsAtEnd (c ∷ []) a = ground arith
digits-StopsAtEnd (c ∷ d ∷ s) a = digits-StopsAtEnd (d ∷ s) a.1

before-all : (d : ℕ) (s : Bytes) → Lacks d s → before d s ≡ s
unfolding before
before-all d [] h = refl
before-all d (c ∷ s) h = ground (arith, before-all d s h.1)

Lacks-append : (d : ℕ) (s t : Bytes) → Lacks d s → Lacks d t → Lacks d (s ++ t)
Lacks-append d = All-append (λ c. (c == d) ≡ false)

io_line-Lacks : (key : Bytes) (n : ℕ) → Lacks b'\n' key → Lacks b'\n' (io_line key n)
io_line-Lacks key n h =
    Lacks-append b'\n' key (b':' ∷ b' ' ∷ to_string n) h
      (refl, (refl, digits-Lacks b'\n' (to_string n) refl (to_string-AllOf n)))

io_lines-Lacks : (io : IoStat) → All (Lacks b'\n') (io_lines io)
io_lines-Lacks io = (
  io_line-Lacks (codes "rchar") io.rchar (assumption refl),
  (
    io_line-Lacks (codes "wchar") io.wchar (assumption refl),
    (
      io_line-Lacks (codes "syscr") io.syscr (assumption refl),
      (
        io_line-Lacks (codes "syscw") io.syscw (assumption refl),
        (
          io_line-Lacks (codes "read_bytes") io.read_bytes (assumption refl),
          (
            io_line-Lacks (codes "write_bytes") io.write_bytes (assumption refl),
            (
              io_line-Lacks (codes "cancelled_write_bytes") io.cancelled_write_bytes
                  (assumption refl),
              tt,
            ),
          ),
        ),
      ),
    ),
  ),
)

-- the value of a line
trimmed :
    (boost : Boost) (b : IsBoost boost) (n : ℕ)
    → boost.trim (before b'\n' (b' ' ∷ to_string n)) ≡ to_string n
trimmed boost b n =
    ap boost.trim (
      before-all b'\n' (b' ' ∷ to_string n)
        (refl, digits-Lacks b'\n' (to_string n) refl (to_string-AllOf n))
      ∙ ap (λ (t : Bytes). b' ' ∷ t) (sym (append-nil (to_string n))))
    ∙ b.trim_blanks (codes " ") (to_string n) [] (refl, tt) (digits-Stops _ (to_string-AllOf n))
        (digits-StopsAtEnd _ (to_string-AllOf n)) tt

-- what a line sets
read_io_line-io_line :
    (boost : Boost) (b : IsBoost boost) (key : Bytes) (n : ℕ) (io : IoStat)
    → Lacks b':' key
    → read_io_line boost (io_line key n) io ≡ set_io key (to_string n) io
unfolding read_io_line
read_io_line-io_line boost b key n io h =
    ap (λ k. set_io k (boost.trim (before b'\n' (after b':' (io_line key n)))) io)
      (before-append b':' key (b' ' ∷ to_string n) h)
    ∙ ap (λ v. set_io key (boost.trim (before b'\n' v)) io)
        (after-append b':' key (b' ' ∷ to_string n) h)
    ∙ ap (λ v. set_io key v io) (trimmed boost b n)

to_u64-small : (n : ℕ) → n < 2 ^ 63 → to_u64 (pos n) ≡ n
unfolding to_u64
to_u64-small n h = mod-eq_of_lt (omega arith)

stored : (n : ℕ) (f : ℕ → IoStat) → n < 2 ^ 63 → store (stol (to_string n) ten) f ≡ ok (f n)
stored n f h = ap (λ r. store r f) (stol-to_string n h) ∙ ap (λ k. ok (f k)) (to_u64-small n h)

-- one line of the loop
read_io_lines-step :
    (boost : Boost) (b : IsBoost boost) (key : Bytes) (n : ℕ) (ls : List Bytes) (io : IoStat)
    (f : ℕ → IoStat)
    → Lacks b':' key
    → set_io key (to_string n) io ≡ store (stol (to_string n) ten) f
    → n < 2 ^ 63
    → read_io_lines boost (io_line key n ∷ ls) io ≡ read_io_lines boost ls (f n)
unfolding read_io_lines
read_io_lines-step boost b key n ls io f hk e h =
    ap
      (λ (r : Result IoStat). elim r as (λ _. Result (Unit {0}) × IoStat) [
        | ok next ↦ read_io_lines boost ls next
        | throw e ↦ (throw e, io)
      ])
      (read_io_line-io_line boost b key n io hk ∙ e ∙ stored n f h)

-- All counters are below 2 ^ 63.
abbrev pub IsSmall : IoStat → Type 0
IsSmall io =
    (io.rchar < 2 ^ 63)
    × (io.wchar < 2 ^ 63)
    × (io.syscr < 2 ^ 63)
    × (io.syscw < 2 ^ 63)
    × (io.read_bytes < 2 ^ 63)
    × (io.write_bytes < 2 ^ 63)
    × (io.cancelled_write_bytes < 2 ^ 63)

read_io_lines-io_text :
    (boost : Boost) (b : IsBoost boost) (io old : IoStat)
    → IsSmall io
    → read_io_lines boost (io_lines io) old ≡ (ok tt, record io { last_read = old.last_read })
unfolding read_io_lines set_io same_text
read_io_lines-io_text boost b io old (h0, h1, h2, h3, h4, h5, h6) =
    let l6 : List Bytes = io_line (codes "cancelled_write_bytes") io.cancelled_write_bytes ∷ [] in
    let l5 : List Bytes = io_line (codes "write_bytes") io.write_bytes ∷ l6 in
    let l4 : List Bytes = io_line (codes "read_bytes") io.read_bytes ∷ l5 in
    let l3 : List Bytes = io_line (codes "syscw") io.syscw ∷ l4 in
    let l2 : List Bytes = io_line (codes "syscr") io.syscr ∷ l3 in
    let l1 : List Bytes = io_line (codes "wchar") io.wchar ∷ l2 in
    let o1 = record old { rchar = io.rchar } in
    let o2 = record o1 { wchar = io.wchar } in
    let o3 = record o2 { syscr = io.syscr } in
    let o4 = record o3 { syscw = io.syscw } in
    let o5 = record o4 { read_bytes = io.read_bytes } in
    let o6 = record o5 { write_bytes = io.write_bytes } in
    read_io_lines-step boost b (codes "rchar") io.rchar l1 old (λ n. record old { rchar = n })
      (assumption refl) refl h0
    ∙ read_io_lines-step boost b (codes "wchar") io.wchar l2 o1 (λ n. record o1 { wchar = n })
        (assumption refl) refl h1
    ∙ read_io_lines-step boost b (codes "syscr") io.syscr l3 o2 (λ n. record o2 { syscr = n })
        (assumption refl) refl h2
    ∙ read_io_lines-step boost b (codes "syscw") io.syscw l4 o3 (λ n. record o3 { syscw = n })
        (assumption refl) refl h3
    ∙ read_io_lines-step boost b (codes "read_bytes") io.read_bytes l5 o4
        (λ n. record o4 { read_bytes = n }) (assumption refl) refl h4
    ∙ read_io_lines-step boost b (codes "write_bytes") io.write_bytes l6 o5
        (λ n. record o5 { write_bytes = n }) (assumption refl) refl h5
    ∙ read_io_lines-step boost b (codes "cancelled_write_bytes") io.cancelled_write_bytes [] o6
        (λ n. record o6 { cancelled_write_bytes = n }) (assumption refl) refl h6

-- If /proc/<pid>/io holds the seven counters as the kernel writes them, each below 2 ^ 63, then readIo
-- returns, and leaves these counters with the time of the read, whatever was read before.
pub read_io-io_lines :
    (boost : Boost) (b : IsBoost boost) (os : Os) (p : ProcessInfo) (io : IoStat)
    → os.open_file (p.proc_path ++ codes "io") ≡ some (unlines b'\n' (io_lines io))
    → IsSmall io
    → read_io boost os p ≡ (ok tt, record p { io = record io { last_read = os.now } })
unfolding read_io
read_io-io_lines boost b os p io e h =
    let start = record p.io { last_read = os.now } in
    let run =
      ap (λ ls. read_io_lines boost ls start)
        (ap lines_of e ∙ lines-unlines b'\n' (io_lines io) (io_lines-Lacks io))
      ∙ read_io_lines-io_text boost b io start h in
    ap (λ (x : Result (Unit {0}) × IoStat). (x.0, record p { io = x.1 })) run

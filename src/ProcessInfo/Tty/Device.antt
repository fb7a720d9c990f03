-- ===== src/ProcessInfo/Tty/Device.antt =====
-- The devices of the paths that ttyNr looks at and returns.
use libsysinfo.Boost.Pattern.{Matches}
use libsysinfo.Boost.{Boost, IsBoost}
use libsysinfo.Prelude.{
  ℕ, ◌≡◌, ◌≢◌, ◌↔◌, refl, sym, ap, ◌∙◌, ◌⊎◌, inl, inr, Bool, true, false, ◌&&◌, List, [], ◌∷◌, ◌++◌,
  append-nil, All, Option, none, some, Option-cases, Bool-cases, ◌==◌, ==_iff, to_u64, Result, ok,
}
use libsysinfo.ProcessInfo.Getters.{update_stat}
use libsysinfo.ProcessInfo.State.{Os, ProcessInfo, m_tty_nr}
use libsysinfo.ProcessInfo.Tty.{
  regex_tty, has_device, find_device, every_name, is_tty, in_pts, in_dev, tty_nr,
}
use libsysinfo.ProcessList.{is_match}
use libsysinfo.Text.{Bytes, codes, is_digit, AllOf}

-- tty and digits, possibly none
abbrev pub IsTtyName : Bytes → Type 0
IsTtyName s = (digits : Bytes) × (s ≡ codes "tty" ++ digits) × AllOf is_digit digits

abbrev pub IsIn : Bytes → List Bytes → Type 0
IsIn s [] = ⊥
IsIn s (t ∷ ts) = (s ≡ t) ⊎ IsIn s ts

lit_rest : (s g r : Bytes) (c d : ℕ) → s ≡ g ++ r → g ≡ c ∷ [] → (c == d) ≡ true → s ≡ d ∷ r
lit_rest s g r c d e k h = e ∙ ap (λ x. x ++ r) k ∙ ap (λ x. x ∷ r) ((==_iff c d).0 h)

Matches-IsTtyName : (s : Bytes) (caps : List Bytes) → Matches regex_tty s caps → IsTtyName s
Matches-IsTtyName s caps
      (
        g1,
        s1,
        e1,
        (c1, k1, h1),
        (
          g2,
          s2,
          e2,
          (c2, k2, h2),
          (g3, s3, e3, (c3, k3, h3), (g4, s4, e4, digits, (end, none_left))),
        ),
      ) =
    let last : s3 ≡ g4 = e4 ∙ ap (λ t. g4 ++ t) end ∙ append-nil g4 in
    (
      g4,
      lit_rest s g1 s1 c1 b't' e1 k1 h1
          ∙ ap (λ t. b't' ∷ t)
              (lit_rest s1 g2 s2 c2 b't' e2 k2 h2
                ∙ ap (λ t. b't' ∷ t)
                    (lit_rest s2 g3 s3 c3 b'y' e3 k3 h3 ∙ ap (λ t. b'y' ∷ t) last)),
      digits,
    )

tty-Matches :
    (digits : Bytes) → AllOf is_digit digits → Matches regex_tty (codes "tty" ++ digits) []
tty-Matches digits h = (
  codes "t",
  codes "ty" ++ digits,
  refl,
  (b't', refl, refl),
  (
    codes "t",
    codes "y" ++ digits,
    refl,
    (b't', refl, refl),
    (
      codes "y",
      digits,
      refl,
      (b'y', refl, refl),
      (digits, [], sym (append-nil digits), h, (refl, refl)),
    ),
  ),
)

is_tty_iff : (boost : Boost) → IsBoost boost → (s : Bytes) → (is_tty boost s ≡ true) ↔ IsTtyName s
is_tty_iff boost b s = (go (boost.regex_match regex_tty s) refl, back)
  where
    go :
        (o : Option (List Bytes))
        → boost.regex_match regex_tty s ≡ o
        → is_match o ≡ true
        → IsTtyName s
    go none e h = cc
    go (some caps) e h = Matches-IsTtyName s caps (b.match_sound regex_tty s caps e)

    back : IsTtyName s → is_tty boost s ≡ true
    back (digits, same, h) = elim (Option-cases (boost.regex_match regex_tty s)) [
      | inl e ↦ absurd (
          b.match_complete regex_tty (codes "tty" ++ digits) [] (tty-Matches digits h)
            (ap (boost.regex_match regex_tty) (sym same) ∙ e))
      | inr (caps, e) ↦ ap is_match e
    ]

module _ (os : Os) (n : ℕ) where
  has_device_iff : (o : Option ℕ) → (has_device n o ≡ true) ↔ (o ≡ some n)
  has_device_iff none = (λ h. cc, λ h. cc)
  has_device_iff (some d) = (λ h. ap some ((==_iff d n).0 h), λ h. (==_iff d n).1 (cc))

  -- The path is that of a name of the directory that satisfies `Looked`, and has the device.
  abbrev pub HasDevice : (Bytes → Type 0) → Bytes → List Bytes → Bytes → Type 0
  HasDevice Looked directory names path =
      (name : Bytes) × IsIn name names
      × Looked name
      × (path ≡ directory ++ name)
      × (os.device path ≡ some n)

  -- No name of the directory that satisfies `Looked` has the device.
  abbrev pub NoDevice : (Bytes → Type 0) → Bytes → List Bytes → Type 0
  NoDevice Looked directory =
      All (λ name. (¬ Looked name) ⊎ (os.device (directory ++ name) ≢ some n))

  abbrev Found : (Bytes → Type 0) → Bytes → List Bytes → Option Bytes → Type 0
  Found Looked directory names (some path) = HasDevice Looked directory names path
  Found Looked directory names none = NoDevice Looked directory names

  module _ (Looked : Bytes → Type 0) (looked_at : Bytes → Bool)
      (iff : (s : Bytes) → (looked_at s ≡ true) ↔ Looked s) (directory : Bytes) where
    Found-cons :
        (name : Bytes) (names : List Bytes) (o : Option Bytes)
        → (¬ Looked name) ⊎ (os.device (directory ++ name) ≢ some n)
        → Found Looked directory names o
        → Found Looked directory (name ∷ names) o
    Found-cons name names (some path) h (m, is_in, looked, e, d) = (m, inr is_in, looked, e, d)
    Found-cons name names none h f = (h, f)

    both_true : (a c : Bool) → (a && c) ≡ true → (a ≡ true) × (c ≡ true)
    both_true true c h = (refl, h)
    both_true false c h = cc

    missed :
        (name : Bytes) (a c : Bool)
        → looked_at name ≡ a
        → has_device n (os.device (directory ++ name)) ≡ c
        → (a && c) ≡ false
        → (¬ Looked name) ⊎ (os.device (directory ++ name) ≢ some n)
    missed name false c e k h = inl λ l. let found = sym e ∙ (iff name).1 l in cc
    missed name true false e k h =
        inr λ d. let found = sym k ∙ (has_device_iff (os.device (directory ++ name))).1 d in cc
    missed name true true e k h = cc

    pub find_device-Found :
        (names : List Bytes)
        → Found Looked directory names (find_device os looked_at directory n names)
    unfolding find_device
    find_device-Found [] = tt
    find_device-Found (name ∷ names) =
        let device = has_device n (os.device (directory ++ name)) in
        elim (Bool-cases (looked_at name && device)) [
          | inl e ↦
              let (looked, has) = both_true (looked_at name) device e in
              rw e (
                name,
                inl refl,
                (iff name).0 looked,
                refl,
                (has_device_iff (os.device (directory ++ name))).0 has,
              )
          | inr e ↦ rw e (
              Found-cons name names (find_device os looked_at directory n names)
                (missed name (looked_at name) device refl refl e) (find_device-Found names))
        ]

  -- Every name of /dev/pts is looked at.
  abbrev pub IsAnyName : Bytes → Type 0
  IsAnyName s = Unit

  -- The path is that of a terminal of /dev; or no such terminal has the device, and the path is that of
  -- an entry of /dev/pts; or neither has it, and the path is empty.
  abbrev pub IsTerminal : List Bytes → List Bytes → Bytes → Type 0
  IsTerminal dev pts path =
      HasDevice IsTtyName (codes "/dev/") dev path
      ⊎ (NoDevice IsTtyName (codes "/dev/") dev
          × (HasDevice IsAnyName (codes "/dev/pts/") pts path
              ⊎ ((path ≡ []) × NoDevice IsAnyName (codes "/dev/pts/") pts)))

  abbrev Answers : List Bytes → List Bytes → Result Bytes → Type 0
  Answers dev pts r = (path : Bytes) × (r ≡ ok path) × IsTerminal dev pts path

  answer_pts :
      (dev pts : List Bytes) (o : Option Bytes)
      → Found IsAnyName (codes "/dev/pts/") pts o
      → NoDevice IsTtyName (codes "/dev/") dev
      → Answers dev pts (elim o as (λ _. Result Bytes) [ some path ↦ ok path | none ↦ ok [] ])
  answer_pts dev pts (some path) f h = (path, refl, inr (h, inl f))
  answer_pts dev pts none f h = ([], refl, inr (h, inr (refl, f)))

  answer_dev :
      (dev pts : List Bytes) (o : Option Bytes)
      → os.list_directory (codes "/dev/pts") ≡ some pts
      → Found IsTtyName (codes "/dev/") dev o
      → Answers dev pts (elim o as (λ _. Result Bytes) [
        | some path ↦ ok path
        | none ↦ in_pts os n (os.list_directory (codes "/dev/pts"))
      ])
  answer_dev dev pts (some path) e f = (path, refl, inl f)
  answer_dev dev pts none e f =
      let (path, found, terminal) =
        answer_pts dev pts (find_device os every_name (codes "/dev/pts/") n pts)
          (find_device-Found IsAnyName every_name (λ s. (λ h. tt, λ h. refl)) (codes "/dev/pts/")
            pts)
          f in
      (path, ap (in_pts os n) e ∙ found, terminal)

-- If the directories /dev and /dev/pts can be listed, ttyNr returns: the path of a name of /dev that is
-- tty and digits and has the device of the controlling terminal in stat; if none of these has it,
-- the path of a name of /dev/pts that has it; if none of these either, the empty text.
pub tty_nr-IsTerminal :
    (boost : Boost) (b : IsBoost boost) (os : Os) (p : ProcessInfo) (dev pts : List Bytes)
    → os.list_directory (codes "/dev") ≡ some dev
    → os.list_directory (codes "/dev/pts") ≡ some pts
    → (path : Bytes) × ((tty_nr boost os p).0 ≡ ok path)
      × IsTerminal os (to_u64 ((update_stat os p).stat.number m_tty_nr)) dev pts path
unfolding tty_nr
tty_nr-IsTerminal boost b os p dev pts e k =
    let n = to_u64 ((update_stat os p).stat.number m_tty_nr) in
    let (path, found, terminal) =
      answer_dev os n dev pts (find_device os (is_tty boost) (codes "/dev/") n dev) k (
        find_device-Found os n IsTtyName (is_tty boost) (is_tty_iff boost b) (codes "/dev/") dev) in
    (path, ap (in_dev boost os n) e ∙ found, terminal)

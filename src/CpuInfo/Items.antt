-- ===== src/CpuInfo/Items.antt =====
-- Lines of /proc/cpuinfo, as the kernel writes them, and what readCPUInfo does with one.
use libsysinfo.Boost.{StopsAtEnd}
use libsysinfo.CpuInfo.State.{CpuInfo}
use libsysinfo.CpuInfo.{branches, choose, store, set_member}
use libsysinfo.Prelude.{ℕ, ◌^◌, ◌<◌, ◌≡◌, ◌≢◌, refl, ap, [], ◌∷◌, pos, ok}
use libsysinfo.Text.Decimal.{to_string, stoi-to_string}
use libsysinfo.Text.Lines.{Lacks}
use libsysinfo.Text.Number.{ten, stoi, strtol}
use libsysinfo.Text.{Bytes, codes, is_space, same_text, Stops, drop_while}

-- The keys of integers.
pub data NumberKey : Type 0 where
  of_processor of_cpu_family of_model of_stepping of_physical_id of_core_id of_cpu_cores of_apicid
        of_initial_apicid of_clflush_size :
      NumberKey

-- The keys of texts.
pub data TextKey : Type 0 where
  of_vendor_id of_model_name of_bugs of_address_sizes of_power_management : TextKey

-- Keys of the kernel that the source spells otherwise.
pub data MissedKey : Type 0 where
  of_siblings of_cpuid_level of_bogomips of_cache_alignment : MissedKey

-- One line: a key with its value.
pub data Item : Type 0 where
  number : NumberKey → ℕ → Item
  text : TextKey → Bytes → Item
  missed : MissedKey → Bytes → Item

abbrev pub key : Item → Bytes
key (number of_processor n) = codes "processor"
key (number of_cpu_family n) = codes "cpu family"
key (number of_model n) = codes "model"
key (number of_stepping n) = codes "stepping"
key (number of_physical_id n) = codes "physical id"
key (number of_core_id n) = codes "core id"
key (number of_cpu_cores n) = codes "cpu cores"
key (number of_apicid n) = codes "apicid"
key (number of_initial_apicid n) = codes "initial apicid"
key (number of_clflush_size n) = codes "clflush size"
key (text of_vendor_id v) = codes "vendor_id"
key (text of_model_name v) = codes "model name"
key (text of_bugs v) = codes "bugs"
key (text of_address_sizes v) = codes "address sizes"
key (text of_power_management v) = codes "power management"
key (missed of_siblings v) = codes "siblings"
key (missed of_cpuid_level v) = codes "cpuid level"
key (missed of_bogomips v) = codes "bogomips"
key (missed of_cache_alignment v) = codes "cache_alignment"

abbrev pub shown_value : Item → Bytes
shown_value (number k n) = to_string n
shown_value (text k v) = v
shown_value (missed k v) = v

-- The member that is set. A text keeps the blank behind the colon.
abbrev pub put : Item → CpuInfo → CpuInfo
put (number of_processor n) c = record c { processor = pos n }
put (number of_cpu_family n) c = record c { cpu_family = pos n }
put (number of_model n) c = record c { model = pos n }
put (number of_stepping n) c = record c { stepping = pos n }
put (number of_physical_id n) c = record c { physical_id = pos n }
put (number of_core_id n) c = record c { core_id = pos n }
put (number of_cpu_cores n) c = record c { cpu_cores = pos n }
put (number of_apicid n) c = record c { apicid = pos n }
put (number of_initial_apicid n) c = record c { initial_apicid = pos n }
put (number of_clflush_size n) c = record c { clflush_size = pos n }
put (text of_vendor_id v) c = record c { vendor_id = b' ' ∷ v }
put (text of_model_name v) c = record c { model_name = b' ' ∷ v }
put (text of_bugs v) c = record c { bugs = b' ' ∷ v }
put (text of_address_sizes v) c = record c { address_sizes = b' ' ∷ v }
put (text of_power_management v) c = record c { power_management = b' ' ∷ v }
put (missed k v) c = c

-- An integer is an int, and a text ends with its line.
abbrev pub IsItem : Item → Type 0
IsItem (number k n) = n < 2 ^ 31
IsItem (text k v) = Lacks b'\n' v
IsItem (missed k v) = Lacks b'\n' v

-- the blank behind the colon is skipped
stoi_blank : (n : ℕ) → n < 2 ^ 31 → stoi (b' ' ∷ to_string n) ten ≡ ok (pos n)
unfolding stoi strtol drop_while
stoi_blank n h = stoi-to_string n h

pub set_member-put :
    (i : Item) (c : CpuInfo) → IsItem i → set_member (key i) (b' ' ∷ shown_value i) c ≡ ok (put i c)
unfolding set_member choose branches store same_text
set_member-put (number of_processor n) c h =
    ap (λ r. store r (λ z. record c { processor = z })) (stoi_blank n h)
set_member-put (number of_cpu_family n) c h =
    ap (λ r. store r (λ z. record c { cpu_family = z })) (stoi_blank n h)
set_member-put (number of_model n) c h =
    ap (λ r. store r (λ z. record c { model = z })) (stoi_blank n h)
set_member-put (number of_stepping n) c h =
    ap (λ r. store r (λ z. record c { stepping = z })) (stoi_blank n h)
set_member-put (number of_physical_id n) c h =
    ap (λ r. store r (λ z. record c { physical_id = z })) (stoi_blank n h)
set_member-put (number of_core_id n) c h =
    ap (λ r. store r (λ z. record c { core_id = z })) (stoi_blank n h)
set_member-put (number of_cpu_cores n) c h =
    ap (λ r. store r (λ z. record c { cpu_cores = z })) (stoi_blank n h)
set_member-put (number of_apicid n) c h =
    ap (λ r. store r (λ z. record c { apicid = z })) (stoi_blank n h)
set_member-put (number of_initial_apicid n) c h =
    ap (λ r. store r (λ z. record c { initial_apicid = z })) (stoi_blank n h)
set_member-put (number of_clflush_size n) c h =
    ap (λ r. store r (λ z. record c { clflush_size = z })) (stoi_blank n h)
set_member-put (text of_vendor_id v) c h = refl
set_member-put (text of_model_name v) c h = refl
set_member-put (text of_bugs v) c h = refl
set_member-put (text of_address_sizes v) c h = refl
set_member-put (text of_power_management v) c h = refl
set_member-put (missed of_siblings v) c h = refl
set_member-put (missed of_cpuid_level v) c h = refl
set_member-put (missed of_bogomips v) c h = refl
set_member-put (missed of_cache_alignment v) c h = refl

-- What the key of a line is like: it has no blank at its ends, no colon and no end of a line.
abbrev pub IsKey : Bytes → Type 0
IsKey s = (s ≢ []) × Stops is_space s × StopsAtEnd is_space s × Lacks b':' s × Lacks b'\n' s

pub key-IsKey : (i : Item) → IsKey (key i)
key-IsKey (number of_processor n) = ((cc), refl, refl, assumption refl, assumption refl)
key-IsKey (number of_cpu_family n) = ((cc), refl, refl, assumption refl, assumption refl)
key-IsKey (number of_model n) = ((cc), refl, refl, assumption refl, assumption refl)
key-IsKey (number of_stepping n) = ((cc), refl, refl, assumption refl, assumption refl)
key-IsKey (number of_physical_id n) = ((cc), refl, refl, assumption refl, assumption refl)
key-IsKey (number of_core_id n) = ((cc), refl, refl, assumption refl, assumption refl)
key-IsKey (number of_cpu_cores n) = ((cc), refl, refl, assumption refl, assumption refl)
key-IsKey (number of_apicid n) = ((cc), refl, refl, assumption refl, assumption refl)
key-IsKey (number of_initial_apicid n) = ((cc), refl, refl, assumption refl, assumption refl)
key-IsKey (number of_clflush_size n) = ((cc), refl, refl, assumption refl, assumption refl)
key-IsKey (text of_vendor_id v) = ((cc), refl, refl, assumption refl, assumption refl)
key-IsKey (text of_model_name v) = ((cc), refl, refl, assumption refl, assumption refl)
key-IsKey (text of_bugs v) = ((cc), refl, refl, assumption refl, assumption refl)
key-IsKey (text of_address_sizes v) = ((cc), refl, refl, assumption refl, assumption refl)
key-IsKey (text of_power_management v) = ((cc), refl, refl, assumption refl, assumption refl)
key-IsKey (missed of_siblings v) = ((cc), refl, refl, assumption refl, assumption refl)
key-IsKey (missed of_cpuid_level v) = ((cc), refl, refl, assumption refl, assumption refl)
key-IsKey (missed of_bogomips v) = ((cc), refl, refl, assumption refl, assumption refl)
key-IsKey (missed of_cache_alignment v) = ((cc), refl, refl, assumption refl, assumption refl)

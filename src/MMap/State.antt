-- ===== src/MMap/State.antt =====
-- src/mmap.h: the members of MMap.
use libsysinfo.Prelude.{ℕ, Bool, List, ℤ}
use libsysinfo.Text.{Bytes}

-- enum mapping_type
pub data MappingType : Type 0 where
  shared priv : MappingType

-- The int members that are read from the attribute lines.
pub data Attribute : Type 0 where
  m_size m_rss m_pss m_shared_clean m_shared_dirty m_private_clean m_private_dirty : Attribute
  m_referenced m_anonymous m_anonhugepages m_swap m_kernelpagesize m_mmupagesize m_locked :
      Attribute

abbrev pub attribute_index : Attribute → ℕ
attribute_index m_size = 0
attribute_index m_rss = 1
attribute_index m_pss = 2
attribute_index m_shared_clean = 3
attribute_index m_shared_dirty = 4
attribute_index m_private_clean = 5
attribute_index m_private_dirty = 6
attribute_index m_referenced = 7
attribute_index m_anonymous = 8
attribute_index m_anonhugepages = 9
attribute_index m_swap = 10
attribute_index m_kernelpagesize = 11
attribute_index m_mmupagesize = 12
attribute_index m_locked = 13

pub record MMap : Type 0 where
  pub address_from : Bytes
  pub address_to : Bytes
  pub perm_read : Bool
  pub perm_write : Bool
  pub perm_execute : Bool
  pub mapping : MappingType
  pub offset : ℤ
  pub dev_major : ℤ
  pub dev_minor : ℤ
  pub inode : ℤ
  pub pathname : Bytes
  pub attribute : Attribute → ℤ
  pub vmflags : List Bytes
  pub category : Bytes

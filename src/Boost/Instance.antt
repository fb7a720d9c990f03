-- ===== src/Boost/Instance.antt =====
-- The laws of Boost can be met.
use libsysinfo.Boost.Reference.Match.{regex_match, regex_match_sound, regex_match_complete}
use libsysinfo.Boost.Reference.Split.{split, split_join}
use libsysinfo.Boost.Reference.Trim.{trim, trim_blanks}
use libsysinfo.Boost.{Boost, IsBoost}

abbrev pub reference : Boost
reference = record { regex_match = regex_match; trim = trim; split = split }

pub reference-IsBoost : IsBoost reference
reference-IsBoost = record {
  match_sound = regex_match_sound;
  match_complete = regex_match_complete;
  trim_blanks = trim_blanks;
  split_join = split_join;
}

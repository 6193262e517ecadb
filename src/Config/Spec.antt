-- ===== src/Config/Spec.antt =====
-- The data of crates/bugpot-config/src/lib.rs. A `PathBuf` is its text, a `SystemTime` a number.
use bugpot.Base.{ℕ, String, Option, List, none, some, Result, ok, err, ◌||◌, if◌then◌else◌, []}
use bugpot.Base.Text.{Str, is_empty, trim, codes}
use bugpot.Base.{list_beq}

pub record Rollout : Type 0 where
  pub tag : Str
  pub created_at : ℕ

pub record VolumeSpec : Type 0 where
  pub name : Str
  pub path : Str
  pub user : Option ℕ

pub record EgressSpec : Type 0 where
  pub allow : List Str

pub record Scaling : Type 0 where
  pub idle_timeout : Option Str

pub record Readiness : Type 0 where
  pub timeout : Option Str
  pub path : Option Str

pub record AppSpec : Type 0 where
  pub repo : Str
  pub port : ℕ
  pub name : Str
  pub subdomain_field : Option Str
  pub egress : EgressSpec
  pub env : List (Str × Str)
  pub scaling : Scaling
  pub readiness : Readiness
  pub volumes : List VolumeSpec

pub record AppIdentity : Type 0 where
  pub name : Str
  pub subdomain : Str

pub record InvalidSpec : Type 0 where
  pub field : String
  pub value : Str
  pub reason : String

abbrev unwrap_or : Option Str → Str → Str
unwrap_or none d = d
unwrap_or (some s) d = s

-- `AppSpec::subdomain`: the explicit label, or the name.
unfoldable pub subdomain : AppSpec → Str
subdomain spec = unwrap_or spec.subdomain_field spec.name

-- `humantime::parse_duration` is a parameter: a text to nanoseconds, or its error message.
module _ (parse_duration : Str → Result ℕ Str) where
  unfoldable pub resolve_idle_timeout : Scaling → Result (Option ℕ) Str
  resolve_idle_timeout s =
      let raw = trim (unwrap_or s.idle_timeout (codes "5m")) in
      if is_empty raw || list_beq raw (codes "0")
      then ok none
      else elim (parse_duration raw) [ ok d ↦ ok (some d) | err e ↦ err e ]

  unfoldable pub resolve_timeout : Readiness → ℕ → Result ℕ Str
  resolve_timeout r default =
      let raw = trim (unwrap_or r.timeout []) in
      if is_empty raw then ok default else parse_duration raw

-- ===== src/Settings/Laws.antt =====
-- agent/settings.py: what the cache serves.
use mathlib.Core.Path.{subst}
use atm_monitoring_agent.Prelude.{
  true, ℕ, ◌+◌, ◌-◌, ◌≡◌, Bool, false, not, ◌&&◌, Option, none, some, List, [], ◌∷◌, refl,
  Bool-cases, Option-cases, inl, inr, ltb, if◌then◌else◌,
}
use atm_monitoring_agent.Settings.{
  AgentSettings, default_settings, has_errors, SettingsCache, init_cache, Query, query_fails,
  no_row, row, Loaded, served, load_raises, is_fresh, accept, answer, load_settings,
}

-- Settings without an error, if there are any.
abbrev pub AreValid : Option AgentSettings → Type 0
AreValid none = Unit
AreValid (some s) = has_errors s ≡ false

abbrev pub IsServed : Loaded → Type 0
IsServed (served s) = AreValid s
IsServed load_raises = Unit

-- A request for the settings: whether it is forced, its time, and the answer of the database.
pub record Request : Type 0 where
  pub force : Bool
  pub now : ℕ
  pub query : Query

pub load : Request → SettingsCache → Loaded × SettingsCache
load r c = load_settings r.force r.now r.query c

pub load_all : List Request → SettingsCache → SettingsCache
unfolding load
load_all [] c = c
load_all (r ∷ rs) c = load_all rs (load r c).1

accept-AreValid :
    (now : ℕ) (loaded : Bool) (s : AgentSettings) (c : SettingsCache)
    → AreValid c.cached_settings
    → IsServed (accept now loaded s c).0 × AreValid (accept now loaded s c).1.cached_settings
unfolding accept
accept-AreValid now loaded s c v = elim (Bool-cases (has_errors s)) [
  | inr ok ↦
      rw (ok, accept) (elim (Bool-cases loaded) [ inl l ↦ rw l (ok, ok) | inr l ↦ rw l (tt, v) ])
  | inl bad ↦
      rw (bad, accept)
        (elim (Option-cases c.cached_settings) [
          | inl e ↦ simp e (tt, tt)
          | inr (old, e) ↦ let w : AreValid (some old) = subst AreValid e v in simp e (w, w)
        ])
]

answer-AreValid :
    (now : ℕ) (q : Query) (c : SettingsCache)
    → AreValid c.cached_settings
    → IsServed (answer now q c).0 × AreValid (answer now q c).1.cached_settings
answer-AreValid now query_fails c v = (tt, v)
answer-AreValid now no_row c v = accept-AreValid now false default_settings c v
answer-AreValid now (row s) c v = accept-AreValid now true s c v

load-AreValid :
    (r : Request) (c : SettingsCache)
    → AreValid c.cached_settings
    → IsServed (load r c).0 × AreValid (load r c).1.cached_settings
unfolding load load_settings
load-AreValid r c v = elim (Bool-cases (not r.force && is_fresh r.now c)) [
  | inl e ↦ rw (e, load_settings) (v, v)
  | inr e ↦ rw (e, load_settings) (answer-AreValid r.now r.query c v)
]

load_all-AreValid :
    (rs : List Request) (c : SettingsCache)
    → AreValid c.cached_settings
    → AreValid (load_all rs c).cached_settings
unfolding load_all
load_all-AreValid [] c v = v
load_all-AreValid (r ∷ rs) c v = load_all-AreValid rs (load r c).1 (load-AreValid r c v).1

-- Whatever rows the database gives, at whatever times and however forced, no request is served
-- settings that have a validation error: an invalid row leaves the settings that were served before.
pub load-IsServed : (rs : List Request) (r : Request) → IsServed (load r (load_all rs init_cache)).0
load-IsServed rs r =
    (load-AreValid r (load_all rs init_cache) (load_all-AreValid rs init_cache tt)).0

-- Settings that were loaded are served without a query for less than 300 seconds unless the load is
-- forced; from then on, or when forced, a row without errors is served and kept, and counted as a
-- reload.
pub load_settings_refresh :
    (force : Bool) (now t : ℕ) (old s : AgentSettings) (c : SettingsCache)
    → c.cached_settings ≡ some old
    → c.last_loaded ≡ some t
    → has_errors s ≡ false
    → load_settings force now (row s) c ≡ (
        if not force && ltb (now - t) 300 then (served (some old), c) else (
          served (some s),
          record {
            cached_settings = some s;
            last_loaded = some now;
            config_reloads = c.config_reloads + 1;
          },
        ))
unfolding load_settings accept
load_settings_refresh force now t old s c e l ok = simp (e, l, ok) refl

-- ===== src/Pages/Events/Shown.antt =====
-- Which events the page shows.
use jvm_scout.Base.{ℕ, ◌≡◌, ◌↔◌, ◌⊎◌, [], List, Option, Comparator, Text, text_dec, Mem}
use jvm_scout.Client.Events.{EventRow}
use jvm_scout.Adapter.Tables.{type_text, severity_text}
use jvm_scout.Pages.Events.Search.{Search, csv_set}
use jvm_scout.Pages.Events.Rows.{PageData, event_rows}
use jvm_scout.Pages.Events.Filters
use jvm_scout.Pages.Events.Filters.{IsInEnvironment, IsIntroduced, HasStatus, HasWords}
use jvm_scout.Pages.Events.Chips.{IsRecent, IsAsked, is_recent-IsRecent, has_chip-IsAsked}
use jvm_scout.Pages.Events.SeenOn.{IsSeenOn, has_server-IsSeenOn}
use jvm_scout.Pages.Events.Passes.{Passes, Mem-event_rows-Passes}

-- The value is one of those chosen, if any are.
abbrev pub IsChosen : List Text → Text → Type 0
IsChosen set v = (set ≡ []) ⊎ Mem v set

module _ (lower : Text → Text) (locale : Comparator Text) (time_of : Text → Option ℕ) where
  -- What the search and the header ask of an event.
  pub record IsShown (now : ℕ) (d : PageData) (s : Search) (e : EventRow) : Type 0 where
    pub environment : IsInEnvironment d e
    pub status : HasStatus s.chip (csv_set s.status) e
    pub type : IsChosen (csv_set s.type) (type_text e.type)
    pub severity : IsChosen (csv_set s.severity) (severity_text e.severity)
    pub app : IsChosen (csv_set s.app) e.application_id
    pub deployment : (csv_set s.deployment ≡ []) ⊎ IsIntroduced (csv_set s.deployment) e
    pub server : (csv_set s.server ≡ []) ⊎ IsSeenOn (csv_set s.server) d.snapshots e
    pub recent : IsRecent now d.time_range (time_of e.last_seen)
    pub words : HasWords lower s.q e
    pub chip : IsAsked d s.chip e

  Passes-IsShown :
      (now : ℕ) (d : PageData) (s : Search) (e : EventRow)
      → Passes lower locale time_of now d s e ↔ IsShown now d s e
  Passes-IsShown now d s e = (
    λ h. record {
      environment = (Filters.env_app_ids-IsInEnvironment d e).0 h.environment;
      status = (Filters.has_status-HasStatus s e).0 h.status;
      type = (Filters.is_among-Mem (csv_set s.type) (type_text e.type)).0 h.type;
      severity =
          (Filters.is_among-Mem (csv_set s.severity) (severity_text e.severity)).0 h.severity;
      app = (Filters.is_among-Mem (csv_set s.app) e.application_id).0 h.app;
      deployment = (Filters.has_deployment-IsIntroduced (csv_set s.deployment) e).0 h.deployment;
      server = (has_server-IsSeenOn (csv_set s.server) d.snapshots e).0 h.server;
      recent = (is_recent-IsRecent lower locale time_of now d.time_range e).0 h.recent;
      words = (Filters.has_words-HasWords lower locale time_of s.q e).0 h.words;
      chip = (has_chip-IsAsked d s e).0 h.chip;
    },
    λ h. record {
      environment = (Filters.env_app_ids-IsInEnvironment d e).1 h.environment;
      status = (Filters.has_status-HasStatus s e).1 h.status;
      type = (Filters.is_among-Mem (csv_set s.type) (type_text e.type)).1 h.type;
      severity =
          (Filters.is_among-Mem (csv_set s.severity) (severity_text e.severity)).1 h.severity;
      app = (Filters.is_among-Mem (csv_set s.app) e.application_id).1 h.app;
      deployment = (Filters.has_deployment-IsIntroduced (csv_set s.deployment) e).1 h.deployment;
      server = (has_server-IsSeenOn (csv_set s.server) d.snapshots e).1 h.server;
      recent = (is_recent-IsRecent lower locale time_of now d.time_range e).1 h.recent;
      words = (Filters.has_words-HasWords lower locale time_of s.q e).1 h.words;
      chip = (has_chip-IsAsked d s e).1 h.chip;
    },
  )

  -- The page shows exactly the events that the search and the header ask for: of an application of
  -- the environment, in a chosen state, of a chosen type, severity and application, introduced by a
  -- chosen deployment, with a snapshot from a chosen server, last seen in the time range (an hour, a
  -- day, a week or thirty days back, or any), with the words in the name or the location, and, with
  -- the chip `new`, introduced by the deployment kept as its application's latest, or, with
  -- `increasing`, with buckets that sum to more than 1.2 times as much from the middle on.
  pub Mem-event_rows :
      (now : ℕ) (d : PageData) (s : Search) (e : EventRow)
      → Mem e (event_rows lower locale time_of now d s) ↔ (Mem e d.events × IsShown now d s e)
  Mem-event_rows now d s e =
      let rows = Mem-event_rows-Passes lower locale time_of now d s e in
      let means = Passes-IsShown now d s e in
      (
        λ m. let (there, h) = rows.0 m in (there, means.0 h),
        λ (there, h). rows.1 (there, means.1 h),
      )

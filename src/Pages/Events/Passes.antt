-- ===== src/Pages/Events/Passes.antt =====
-- The filters of the events page, one after another.
use jvm_scout.Base.{
  ℕ, ◌≡◌, ◌↔◌, ◌⊎◌, arith, [], true, Comparator, Text, text_dec, has, Mem, Mem-filter, Mem-sort_by,
  Option,
}
use jvm_scout.Client.Events.{EventRow}
use jvm_scout.Adapter.Tables.{type_text, severity_text}
use jvm_scout.Pages.Times.{is_active}
use jvm_scout.Pages.Events.Search.{unresolved, Search, csv_set}
use jvm_scout.Pages.Events.Rows.{
  PageData, env_app_ids, has_status, is_among, has_deployment, has_server, servers_by_event,
  is_recent, cutoff_at, has_words, has_chip, directed, compare_field, event_rows,
}

active_of_status :
    (s : Search) (e : EventRow)
    → ((s.chip ≡ unresolved) ⊎ (csv_set s.status ≡ []))
    → has_status s e ≡ true
    → is_active e ≡ true
unfolding has_status
active_of_status s e quiet k = ground (arith, quiet, k)

module _ (lower : Text → Text) (locale : Comparator Text) (time_of : Text → Option ℕ) where
  -- The event passes every filter of the page.
  pub record Passes (now : ℕ) (d : PageData) (s : Search) (e : EventRow) : Type 0 where
    pub environment : has e.application_id (env_app_ids d) ≡ true
    pub status : has_status s e ≡ true
    pub type : is_among (csv_set s.type) (type_text e.type) ≡ true
    pub severity : is_among (csv_set s.severity) (severity_text e.severity) ≡ true
    pub app : is_among (csv_set s.app) e.application_id ≡ true
    pub deployment : has_deployment (csv_set s.deployment) e ≡ true
    pub server : has_server (csv_set s.server) (servers_by_event d.snapshots) e ≡ true
    pub recent :
        is_recent lower locale time_of (cutoff_at lower locale time_of now d.time_range) e ≡ true
    pub words : has_words lower locale time_of s.q e ≡ true
    pub chip : has_chip d s e ≡ true

  -- The rows are the events that pass the tests, and no others.
  pub Mem-event_rows-Passes :
      (now : ℕ) (d : PageData) (s : Search) (e : EventRow)
      → Mem e (event_rows lower locale time_of now d s) ↔ (Mem e d.events × Passes now d s e)
  unfolding event_rows
  Mem-event_rows-Passes now d s e =
      let sorted =
        Mem-sort_by
          (λ x y.
            directed lower locale time_of s.dir (compare_field lower locale time_of s.sort x y))
          e _ in
      (
        (λ m.
            let (m9, chip) = (Mem-filter (has_chip d s) e _).0 (sorted.0 m) in
            let (m8, words) = (Mem-filter (has_words lower locale time_of s.q) e _).0 m9 in
            let (m7, recent) =
              (Mem-filter
                  (is_recent lower locale time_of (cutoff_at lower locale time_of now d.time_range))
                  e _).0
                m8 in
            let (m6, server) =
              (Mem-filter (has_server (csv_set s.server) (servers_by_event d.snapshots)) e _).0
                m7 in
            let (m5, deployment) = (Mem-filter (has_deployment (csv_set s.deployment)) e _).0 m6 in
            let (m4, app) =
              (Mem-filter (λ x. is_among (csv_set s.app) x.application_id) e _).0 m5 in
            let (m3, severity) =
              (Mem-filter (λ x. is_among (csv_set s.severity) (severity_text x.severity)) e _).0
                m4 in
            let (m2, type) =
              (Mem-filter (λ x. is_among (csv_set s.type) (type_text x.type)) e _).0 m3 in
            let (m1, status) = (Mem-filter (has_status s) e _).0 m2 in
            let (m0, environment) =
              (Mem-filter (λ x. has x.application_id (env_app_ids d)) e d.events).0 m1 in
            (
              m0,
              record {
                environment = environment;
                status = status;
                type = type;
                severity = severity;
                app = app;
                deployment = deployment;
                server = server;
                recent = recent;
                words = words;
                chip = chip;
              },
            )),
        λ h.
            let (m, p) = h in
            sorted.1 (
              (Mem-filter (has_chip d s) e _).1 (
                (Mem-filter (has_words lower locale time_of s.q) e _).1 (
                  (Mem-filter
                        (is_recent lower locale time_of
                          (cutoff_at lower locale time_of now d.time_range))
                        e _).1
                      (
                        (Mem-filter (has_server (csv_set s.server) (servers_by_event d.snapshots)) e
                              _).1
                            (
                              (Mem-filter (has_deployment (csv_set s.deployment)) e _).1 (
                                (Mem-filter (λ x. is_among (csv_set s.app) x.application_id) e _).1
                                    (
                                      (Mem-filter
                                            (λ x.
                                              is_among (csv_set s.severity)
                                                (severity_text x.severity))
                                            e _).1
                                          (
                                            (Mem-filter
                                                  (λ x.
                                                    is_among (csv_set s.type) (type_text x.type))
                                                  e _).1
                                                (
                                                  (Mem-filter (has_status s) e _).1 (
                                                    (Mem-filter
                                                          (λ x.
                                                            has x.application_id (env_app_ids d))
                                                          e d.events).1
                                                        (m, p.environment),
                                                    p.status,
                                                  ),
                                                  p.type,
                                                ),
                                            p.severity,
                                          ),
                                      p.app,
                                    ),
                                p.deployment,
                              ),
                              p.server,
                            ),
                        p.recent,
                      ),
                  p.words,
                ),
                p.chip,
              )),
      )

  -- Unless a state is chosen in the search and the chip `unresolved` is not, only active events are
  -- shown.
  pub event_rows-active :
      (now : ℕ) (d : PageData) (s : Search) (e : EventRow)
      → ((s.chip ≡ unresolved) ⊎ (csv_set s.status ≡ []))
      → Mem e (event_rows lower locale time_of now d s)
      → is_active e ≡ true
  event_rows-active now d s e quiet m =
      active_of_status s e quiet ((Mem-event_rows-Passes now d s e).0 m).1.status

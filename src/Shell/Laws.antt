-- ===== src/Shell/Laws.antt =====
-- Who sees the pages after the probe, and the theme that is stored.
use jvm_scout.Base.{
  ◌≡◌, refl, ap, ◌∙◌, ◌↔◌, arith, some, Bool, true, false, codes, text_dec, text_discrete, lookup,
  lookup-insert,
}
use jvm_scout.Client.Http.{Platform, ClientState, Storage, Result, ok, err, verify_api_key}
use jvm_scout.Auth.{signed_out, settle, probe}
use jvm_scout.Shell.{
  pages, loading, layout_of, Theme, dark, light, theme_text, theme_of, ThemeState, apply_theme,
  load_theme, set_theme, store_theme,
}

settle-pages :
    {World : Type 0} (r : Result Bool) (s : ClientState World)
    → (layout_of (settle false r (signed_out s)) ≡ pages) ↔ (r ≡ ok true)
unfolding layout_of
settle-pages (ok true) s = (λ _. refl, λ _. refl)
settle-pages (ok false) s = (λ h. cc, λ h. cc)
settle-pages (err e) s = (λ h. cc, λ h. cc)

settle-loading :
    {World : Type 0} (r : Result Bool) (s : ClientState World)
    → (layout_of (settle true r (signed_out s)) ≡ loading)
unfolding layout_of
settle-loading r s = refl

-- A visitor sees no page before the probe has ended. When it has, the pages are shown exactly if the
-- collector accepted the stored key, or accepts any.
pub layout_of-probe :
    {World : Type 0} (p : Platform World) (s : ClientState World)
    → (layout_of (signed_out s) ≡ loading)
      × ((layout_of (probe p false (signed_out s)) ≡ pages) ↔ ((verify_api_key p s).0 ≡ ok true))
unfolding layout_of probe
layout_of-probe p s = (refl, settle-pages (verify_api_key p s).0 (verify_api_key p s).1)

theme_of-theme_text : (t : Theme) → theme_of (some (theme_text t)) ≡ t
unfolding text_discrete
theme_of-theme_text dark = refl
theme_of-theme_text light = refl

load_theme_lem :
    (s : ThemeState)
    → s.storage.denied ≡ false
    → (u : ThemeState) × (load_theme s ≡ some u)
      × (u.theme ≡ theme_of (lookup (codes "theme") s.storage.entries))
unfolding load_theme apply_theme
load_theme_lem s h =
    let initial = theme_of (lookup (codes "theme") s.storage.entries) in
    (apply_theme initial (record s { theme = initial }), rw h refl, refl)

store_theme_lem :
    (t : Theme) (st : Storage)
    → st.denied ≡ false
    → ((store_theme t st).denied ≡ false)
      × (lookup (codes "theme") (store_theme t st).entries ≡ some (theme_text t))
store_theme_lem t st h = (
  rw h refl,
  rw h (lookup-insert (codes "theme") (codes "theme") (theme_text t) st.entries ∙ ground arith),
)

-- Where the browser allows storage, a theme that was set is the one that the next visit loads.
pub load_theme-set_theme :
    (t : Theme) (s : ThemeState)
    → s.storage.denied ≡ false
    → (u : ThemeState) × (load_theme (set_theme t s) ≡ some u) × (u.theme ≡ t)
unfolding set_theme apply_theme
load_theme-set_theme t s allowed =
    let (open_, found) = store_theme_lem t s.storage allowed in
    let (u, loaded, same) = load_theme_lem (set_theme t s) open_ in
    (u, loaded, same ∙ (ap theme_of found ∙ theme_of-theme_text t))

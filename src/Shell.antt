-- ===== src/Shell.antt =====
-- The shell around the pages: frontend/src/lib/theme.tsx, frontend/src/lib/app-context.tsx,
-- frontend/src/routes/login.tsx, frontend/src/routes/_authenticated.tsx and
-- frontend/src/routes/index.tsx, without their markup.
pub mod Laws
pub mod Frame
pub mod Sparkline
use jvm_scout.Base.{
  ℕ, ◌*◌, ◌∷◌, [], List, Option, none, some, Bool, true, false, ◌||◌, ◌&&◌, not, Text, codes,
  text_dec, trim, lookup, insert, delete, add, is_some, if◌then◌else◌, ◌==◌,
}
use jvm_scout.Client.Http.{Platform, Storage, Error, Result, ok, err}
use jvm_scout.Client.Applications.{Environment, production}
use jvm_scout.Auth.{AuthState, login}

pub data Theme : Type 0 where
  dark light : Theme

abbrev pub theme_text : Theme → Text
theme_text dark = codes "dark"
theme_text light = codes "light"

-- The provider's state, the storage, and the root element of the document.
pub record ThemeState : Type 0 where
  pub theme : Theme
  pub storage : Storage
  pub class_list : List Text
  pub color_scheme : Text

-- `applyTheme`, where there is a document.
unfoldable pub apply_theme : Theme → ThemeState → ThemeState
apply_theme t s = record s {
  class_list = add (theme_text t) (delete (codes "light") (delete (codes "dark") s.class_list));
  color_scheme = theme_text t;
}

abbrev pub theme_of : Option Text → Theme
theme_of none = dark
theme_of (some stored) = if stored == codes "light" then light else dark

-- The effect of `ThemeProvider`; none is the error of a denied access.
unfoldable pub load_theme : ThemeState → Option ThemeState
load_theme s =
    if s.storage.denied
    then none
    else some (
        let initial = theme_of (lookup (codes "theme") s.storage.entries) in
        apply_theme initial (record s { theme = initial }))

abbrev pub store_theme : Theme → Storage → Storage
store_theme t st =
    if st.denied
    then st
    else record st { entries = insert (codes "theme") (theme_text t) st.entries }

unfoldable pub set_theme : Theme → ThemeState → ThemeState
set_theme t s =
    let applied = apply_theme t (record s { theme = t }) in
    record applied { storage = store_theme t applied.storage }

abbrev pub other_theme : Theme → Theme
other_theme dark = light
other_theme light = dark

unfoldable pub toggle : ThemeState → ThemeState
toggle s = set_theme (other_theme s.theme) s

pub data TimeRange : Type 0 where
  hour day week month custom : TimeRange

pub record AppContext : Type 0 where
  pub environment : Environment
  pub time_range : TimeRange

-- The initial state of `AppContextProvider`.
abbrev pub initial_context : AppContext
initial_context = record { environment = production; time_range = day }

-- What the layout of the signed-in pages shows, and whether it goes to the login page.
pub data Shown : Type 0 where
  loading redirected pages : Shown

unfoldable pub layout_of : {World : Type 0} → AuthState World → Shown
layout_of a = if a.ready then (if is_some a.user then pages else redirected) else loading

-- `beforeLoad` of the index page redirects, whoever visits it.
abbrev pub index_redirect : Text
index_redirect = codes "/dashboard"

-- The state of the login page, and where it has navigated to.
pub record LoginPage : Type 0 where
  pub api_key : Text
  pub submitting : Bool
  pub error : Option Text
  pub destination : Option Text

-- What `onSubmit` does with the end of `login`; every error that `login` throws has a message.
abbrev pub submitted : (Error → Text) → LoginPage → Result (Unit {0}) → LoginPage
submitted message_of page (ok _) = record page {
  submitting = false;
  error = none;
  destination = some (codes "/dashboard");
}
submitted message_of page (err e) = record page { submitting = false; error = some (message_of e) }

unfoldable pub on_submit :
    {World : Type 0}
    → Platform World
    → (Error → Text)
    → LoginPage
    → AuthState World
    → LoginPage × AuthState World
on_submit p message_of page a =
    let (r, a') = login p (trim page.api_key) a in (submitted message_of page r, a')

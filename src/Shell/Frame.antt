-- ===== src/Shell/Frame.antt =====
-- frontend/src/components/AppShell.tsx: the navigation, the menu of the user, and what is highlighted.
pub mod Laws
use jvm_scout.Base.{
  ℕ, ◌∷◌, [], ◌++◌, ◌≡◌, ◌≢◌, refl, ap, ◌∙◌, sym, arith, inl, inr, List, Option, none, some, Bool,
  Bool-cases, true, false, ◌||◌, not, Text, codes, text_dec, nat_dec, ℕ_discrete, text_discrete,
  is_empty, starts_with, split_on, split_on-append, split_on_of_Lacks, Lacks, Mem, All, All-Mem,
  take, drop, map, if◌then◌else◌, ◌==◌,
}
use jvm_scout.Client.Http.{ClientState}
use jvm_scout.Auth.{User, AuthState, logout}

pub record NavItem : Type 0 where
  pub to : Text
  pub label : Text

-- `nav`
unfoldable pub nav : List NavItem
nav =
    record { to = codes "/dashboard"; label = codes "Dashboard" }
    ∷ record { to = codes "/events"; label = codes "Events" }
    ∷ record { to = codes "/deployments"; label = codes "Deployments" }
    ∷ record { to = codes "/applications"; label = codes "Applications" }
    ∷ record { to = codes "/alerts"; label = codes "Alerts" }
    ∷ record { to = codes "/settings"; label = codes "Settings" }
    ∷ []

-- `active` of an item at a path.
unfoldable pub is_active_item : Text → NavItem → Bool
is_active_item path item = path == item.to || starts_with (item.to ++ codes "/") path

-- `user?.name || "?"`
abbrev pub name_or : Text → Option User → Text
name_or default none = default
name_or default (some u) = if is_empty u.name then default else u.name

-- `initials`
abbrev pub initials : (upper : Text → Text) → Option User → Text
initials upper user = upper (take 2 (name_or (codes "?") user))

-- The name in the menu.
abbrev pub menu_name : Option User → Text
menu_name user = name_or (codes "Signed in") user

-- `Sign out`: the user and key are dropped, then the login page is shown.
unfoldable pub sign_out : {World : Type 0} → AuthState World → AuthState World × Text
sign_out a = (logout a, codes "/login")

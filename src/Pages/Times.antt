-- ===== src/Pages/Times.antt =====
-- Dates as the pages of frontend/src/routes/_authenticated compare them, their maps by id, and the
-- ranking of severities. A time is what `getTime` gives, none where a text is no date.
pub mod Index
pub mod Same
pub mod Trends
use jvm_scout.Base.{
  ℕ, ◌∷◌, [], List, Option, none, some, Bool, true, false, Ordering, Comparator, compare, Text,
  lookup, insert, leb, flip_sign, if◌then◌else◌, filter, ◌*◌,
}
use jvm_scout.Client.Events.{Status, active, resolved, hidden, EventRow}
use jvm_scout.Client.Applications.{Environment, production, staging, development}
use jvm_scout.Client.Rows.{Severity, critical, error, warning, info}

-- `(a, b) => f(a) - f(b)`, for times; a difference that is NaN counts as 0.
abbrev pub compare_times : Option ℕ → Option ℕ → Ordering
compare_times (some a) (some b) = compare a b
compare_times _ _ = Ordering.eq

abbrev pub is_at_least : Option ℕ → ℕ → Bool
is_at_least none cutoff = false
is_at_least (some t) cutoff = leb cutoff t

-- `new Map(xs.map((x) => [key(x), x]))`: the last of equal keys stands, at the place of the first.
unfoldable pub index_from :
    {A K : Type 0} ⦃d : Discrete K⦄ → (A → K) → List (K × A) → List A → List (K × A)
index_from key m [] = m
index_from key m (x ∷ xs) = index_from key (insert (key x) x m) xs

abbrev pub index_by : {A K : Type 0} ⦃d : Discrete K⦄ → (A → K) → List A → List (K × A)
index_by key xs = index_from key [] xs

-- The table `sev` of the comparators.
abbrev pub severity_rank : Severity → ℕ
severity_rank critical = 0
severity_rank error = 1
severity_rank warning = 2
severity_rank info = 3

-- `(a, b) => d !== 0 ? d : other(a, b)`
abbrev pub then_by : {A : Type 0} → Comparator A → Comparator A → Comparator A
then_by c d a b = elim (c a b) [
  | Ordering.eq ↦ d a b
  | Ordering.lt ↦ Ordering.lt
  | Ordering.gt ↦ Ordering.gt
]

-- `(a, b) => c(b, a)`
abbrev pub descending : {A : Type 0} → Comparator A → Comparator A
descending c a b = c b a

abbrev pub by_number : {A : Type 0} → (A → ℕ) → Comparator A
by_number f a b = compare (f a) (f b)

-- `a.environment === environment`
abbrev pub same_environment : Environment → Environment → Bool
same_environment production production = true
same_environment staging staging = true
same_environment development development = true
same_environment _ _ = false

abbrev pub is_active : EventRow → Bool
is_active e = elim e.status [ active ↦ true | resolved ↦ false | hidden ↦ false ]

abbrev pub is_resolved : EventRow → Bool
is_resolved e = elim e.status [ resolved ↦ true | active ↦ false | hidden ↦ false ]

abbrev pub is_critical : EventRow → Bool
is_critical e = elim e.severity [ critical ↦ true | error ↦ false | warning ↦ false | info ↦ false ]

abbrev pub is_error : EventRow → Bool
is_error e = elim e.severity [ critical ↦ false | error ↦ true | warning ↦ false | info ↦ false ]

abbrev pub first_of : {A : Type 0} → List A → Option A
first_of [] = none
first_of (x ∷ xs) = some x

-- `new Date(x).getTime()` of a column that the comparators of the pages sort by, the latest first.
abbrev pub latest_first : {A : Type 0} → (A → Option ℕ) → Comparator A
latest_first f a b = compare_times (f b) (f a)

-- ===== src/Client/Applications/Laws.antt =====
-- The applications that `deriveApplications` lists, and when each was created.
use jvm_scout.Base.{
  ℕ, ◌≡◌, refl, sym, ap, ◌∙◌, arith, ◌∷◌, [], ◌++◌, List, Option, none, some, true, false, inl, inr,
  map, Text, text_dec, is_empty, str_lt, str_lt_irrefl, str_lt_trans, str_lt_connex, lookup,
  lookup-insert, add, add_all, set_of, Mem, All, if◌then◌else◌, ◌==◌, ◌or_else◌, Bool-cases,
  List-cases, All-map, All-of_Mem, All-Mem, Mem-filter, subst, ◌⊎◌,
}
use jvm_scout.Client.Rows.{ExceptionListRow, ts_of, app_id_of}
use jvm_scout.Client.Endpoints.{Instance}
use jvm_scout.Client.Http.{Platform, ClientState, ok, ◌>>=◌}
use jvm_scout.Client.Groups.{with_key}
use jvm_scout.Client.Applications.{
  ApplicationRow, Environment, Seen, is_earlier, see_row, see_rows, unseen, Known,
  app_id_of_instance, know_instance, know_instances, created_at, application_rows, applications_of,
  production,
}

see_rows-ids :
    (s : Seen) (rs : List ExceptionListRow) → (see_rows s rs).ids ≡ add_all s.ids (map app_id_of rs)
unfolding see_rows see_row add_all
see_rows-ids s [] = refl
see_rows-ids s (r ∷ rs) = see_rows-ids (see_row s r) rs

know_instances-ids :
    (lower : Text → Text) (k : Known) (is : List Instance)
    → (know_instances lower k is).ids ≡ add_all k.ids (map app_id_of_instance is)
unfolding know_instances know_instance add_all
know_instances-ids lower k [] = refl
know_instances-ids lower k (i ∷ is) = know_instances-ids lower (know_instance lower k i) is

add_all-append : (s xs ys : List Text) → add_all (add_all s xs) ys ≡ add_all s (xs ++ ys)
unfolding add_all
add_all-append s [] ys = refl
add_all-append s (x ∷ xs) ys = add_all-append (add x s) xs ys

-- `t` is the earliest of the times.
pub record IsEarliest (t : Text) (times : List Text) : Type 0 where
  pub mem : Mem t times
  pub least : All (λ u. str_lt u t ≡ false) times

-- What the first loop records for one application, given the times of its rows.
abbrev earliest_from : Option Text → List Text → Option Text
earliest_from o [] = o
earliest_from o (t ∷ ts) = earliest_from (if is_earlier t o then some t else o) ts

abbrev times_of_app : Text → List ExceptionListRow → List Text
times_of_app k rs = map ts_of (with_key app_id_of k rs)

lookup-see_rows :
    (k : Text) (s : Seen) (rs : List ExceptionListRow)
    → lookup k (see_rows s rs).earliest ≡ earliest_from (lookup k s.earliest) (times_of_app k rs)
unfolding see_rows see_row
lookup-see_rows k s [] = refl
lookup-see_rows k s (r ∷ rs) =
    lookup-see_rows k (see_row s r) rs
    ∙ (ground (arith, lookup-insert k (app_id_of r) (ts_of r) s.earliest))

abbrev pub IsNamed : Text → Type 0
IsNamed t = is_empty t ≡ false

least_other : (t e m : Text) → str_lt t e ≡ true → str_lt t m ≡ false → str_lt e m ≡ false
least_other t e m h k = ground (arith, str_lt_trans t e m)

least_kept : (t e m : Text) → str_lt t e ≡ false → str_lt e m ≡ false → str_lt t m ≡ false
least_kept t e m h k = ground (arith, str_lt_trans t m e, str_lt_connex e m)

earliest_from-IsEarliest :
    (e : Text) (ts : List Text)
    → All IsNamed (e ∷ ts)
    → (m : Text) × (earliest_from (some e) ts ≡ some m) × IsEarliest m (e ∷ ts)
earliest_from-IsEarliest e [] h =
    (e, refl, record { mem = inl refl; least = (str_lt_irrefl e, tt) })
earliest_from-IsEarliest e (t ∷ ts) (p, (q, h)) = elim (Bool-cases (str_lt t e)) [
  | inl lt ↦
      (let (m, made, found) = earliest_from-IsEarliest t ts (q, h) in
        let (at_t, rest) = found.least in
        (
          m,
          rw (p, lt) made,
          record { mem = inr found.mem; least = (least_other t e m lt at_t, (at_t, rest)) },
        ))
  | inr ge ↦
      (let (m, made, found) = earliest_from-IsEarliest e ts (p, h) in
        let (at_e, rest) = found.least in
        (
          m,
          rw (p, ge) made,
          record { mem = kept m ts t found.mem; least = (at_e, (least_kept t e m ge at_e, rest)) },
        ))
]
  where
    kept : (m : Text) (ts : List Text) (t : Text) → Mem m (e ∷ ts) → Mem m (e ∷ t ∷ ts)
    kept m ts t (inl same) = inl same
    kept m ts t (inr rest) = inr (inr rest)

pub earliest_of_rows :
    (k t : Text) (ts : List Text) (rs : List ExceptionListRow)
    → times_of_app k rs ≡ t ∷ ts
    → All IsNamed (t ∷ ts)
    → (m : Text) × (lookup k (see_rows unseen rs).earliest ≡ some m) × IsEarliest m (t ∷ ts)
unfolding lookup
earliest_of_rows k t ts rs e h =
    let (m, made, found) = earliest_from-IsEarliest t ts h in
    (m, lookup-see_rows k unseen rs ∙ (rw e made), found)

none-ne-some : {t : Text} → none ≡ some t → ⊥
none-ne-some h = cc

module _ (rs : List ExceptionListRow) (named : All (λ r. IsNamed (ts_of r)) rs) where
  times_of_app-IsNamed : (k : Text) → All IsNamed (times_of_app k rs)
  times_of_app-IsNamed k = All-map IsNamed ts_of (with_key app_id_of k rs) (
      All-of_Mem _ (with_key app_id_of k rs)
        (λ r m. All-Mem _ rs r named ((Mem-filter (λ x. app_id_of x == k) r rs).0 m).0))

  no_times : (k : Text) → lookup k (see_rows unseen rs).earliest ≡ none → times_of_app k rs ≡ []
  no_times k e = elim (List-cases (times_of_app k rs)) [
    | inl none_there ↦ none_there
    | inr (u, us, there) ↦
        (let (m, made, found) =
            earliest_of_rows k u us rs there (subst (All IsNamed) there (times_of_app-IsNamed k)) in
          absurd (none-ne-some (sym e ∙ made)))
  ]

  earliest_found :
      (k t : Text)
      → lookup k (see_rows unseen rs).earliest ≡ some t
      → IsEarliest t (times_of_app k rs)
  unfolding lookup
  earliest_found k t e = elim (List-cases (times_of_app k rs)) [
    | inl none_there ↦
        absurd (
          none-ne-some (sym (lookup-see_rows k unseen rs ∙ ap (earliest_from none) none_there) ∙ e))
    | inr (u, us, there) ↦
        (let (m, made, found) =
            earliest_of_rows k u us rs there (subst (All IsNamed) there (times_of_app-IsNamed k)) in
          subst (λ ts. IsEarliest t ts) (sym there)
            (subst (λ x. IsEarliest x (u ∷ us)) (some_injective (sym made ∙ e)) found))
  ]
    where
      some_injective : {t u : Text} → some t ≡ some u → t ≡ u
      some_injective h = cc

module _ {World : Type 0} (p : Platform World) (iso : ℕ → Text) (lower : Text → Text) where
  -- The row of an application, from what the loops have recorded.
  pub record IsApplication (earliest : List (Text × Text)) (envs : List (Text × Environment))
      (a : ApplicationRow) : Type 0 where
    pub name : a.name ≡ a.id
    pub environment : a.environment ≡ (lookup a.id envs or_else production)
    pub created : (lookup a.id earliest ≡ none) ⊎ (lookup a.id earliest ≡ some a.created_at)

  created_at-total :
      (o : Option Text) (s : ClientState World)
      → (t : Text) × (s' : ClientState World) × (created_at p iso lower o s ≡ (ok t, s'))
        × ((o ≡ none) ⊎ (o ≡ some t))
  unfolding created_at
  created_at-total (some t) s = (t, s, refl, inr refl)
  created_at-total none s =
      (iso (p.now s.world).0, record s { world = (p.now s.world).1 }, refl, inl refl)

  application_rows-total :
      (earliest : List (Text × Text)) (envs : List (Text × Environment)) (ids : List Text)
      (s : ClientState World)
      → (apps : List ApplicationRow) × (s' : ClientState World) × (application_rows p iso lower
            earliest envs ids s
          ≡ (ok apps, s'))
        × (map (λ a. a.id) apps ≡ ids)
        × All (IsApplication earliest envs) apps
  unfolding application_rows
  application_rows-total earliest envs [] s = ([], s, refl, refl, tt)
  application_rows-total earliest envs (id ∷ ids) s =
      let (t, s1, made, source) = created_at-total (lookup id earliest) s in
      let (apps, s2, rest, same, all_made) = application_rows-total earliest envs ids s1 in
      let app : ApplicationRow = record {
        id = id;
        name = id;
        environment = lookup id envs or_else production;
        created_at = t;
      } in
      (
        app ∷ apps,
        s2,
        rw (made, ◌>>=◌) (rw (rest, ◌>>=◌) refl),
        ap (◌∷◌ id) same,
        (record { name = refl; environment = refl; created = source }, all_made),
      )

  -- What the applications say of the rows and the instances they were derived from.
  pub record IsApplicationTable (rows : List ExceptionListRow) (instances : List Instance)
      (apps : List ApplicationRow) : Type 0 where
    pub ids : map (λ a. a.id) apps ≡ set_of (map app_id_of rows ++ map app_id_of_instance instances)
    pub names : All (λ a. a.name ≡ a.id) apps
    pub created :
        All
          (λ a. (times_of_app a.id rows ≡ []) ⊎ IsEarliest a.created_at (times_of_app a.id rows))
          apps

  -- The derivation from fetched rows and instances never fails. It yields one application for each
  -- distinct id of a row or an instance, in order of first appearance, created at the earliest time
  -- of its rows where it has rows; no row has an empty time.
  pub applications_of_total :
      (rows : List ExceptionListRow) (instances : List Instance) (s : ClientState World)
      → All (λ r. IsNamed (ts_of r)) rows
      → (apps : List ApplicationRow) × (s' : ClientState World) × (applications_of p iso lower rows
            instances s
          ≡ (ok apps, s'))
        × IsApplicationTable rows instances apps
  unfolding applications_of set_of
  applications_of_total rows instances s named =
      let seen = see_rows unseen rows in
      let known = know_instances lower (record { ids = seen.ids; environments = [] }) instances in
      let (apps, s', made, same, each) =
        application_rows-total seen.earliest known.environments known.ids s in
      (
        apps,
        s',
        made,
        record {
          ids =
              same
              ∙ (know_instances-ids lower (record { ids = seen.ids; environments = [] }) instances
                  ∙ (ap (λ base. add_all base (map app_id_of_instance instances))
                        (see_rows-ids unseen rows)
                      ∙ add_all-append [] (map app_id_of rows) (map app_id_of_instance instances)));
          names = All-of_Mem (λ a. a.name ≡ a.id) apps (λ a m. (All-Mem _ apps a each m).name);
          created =
              All-of_Mem _ apps (λ a m. created_of rows named a (All-Mem _ apps a each m).created);
        },
      )
    where
      created_of :
          (rows : List ExceptionListRow)
          → All (λ r. IsNamed (ts_of r)) rows
          → (a : ApplicationRow)
          → ((lookup a.id (see_rows unseen rows).earliest ≡ none)
              ⊎ (lookup a.id (see_rows unseen rows).earliest ≡ some a.created_at))
          → (times_of_app a.id rows ≡ []) ⊎ IsEarliest a.created_at (times_of_app a.id rows)
      created_of rows named a (inr e) = inr (earliest_found rows named a.id a.created_at e)
      created_of rows named a (inl e) = inl (no_times rows named a.id e)

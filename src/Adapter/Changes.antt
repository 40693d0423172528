-- ===== src/Adapter/Changes.antt =====
-- A collector that keeps its configuration tables as lists of rows, and what an insert and an update of
-- one row, as `config_insert` and `config_update` send them, leave there. A column that the collector
-- sets itself is not taken from the request.
use jvm_scout.Base.{
  ◌≡◌, ap, ◌∙◌, arith, ◌∷◌, [], ◌++◌, List, some, Bool, false, Text, codes, text_dec, nat_dec, map,
  has, if◌then◌else◌, ◌==◌,
}
use jvm_scout.Client.Values.{Value, Row, column}
use jvm_scout.Client.Endpoints.{Endpoint, Reply, path_of, extra_headers}
use jvm_scout.Client.Http.{
  Platform, ClientState, Effect, response, parsed, ok, http, auth_headers, get_api_key, answer,
  pure, ◌>>=◌, >>=-ok,
}
use jvm_scout.Adapter.Store.{id_of, config_insert, config_update}

abbrev pub is_assigned : Text → Bool
is_assigned c = has c (codes "id" ∷ codes "project_id" ∷ codes "created_at" ∷ [])

-- The row after a change of one column.
abbrev pub assign : Text → Text → Value → Row → Row
assign id c v r = if id_of r == id then (c, v) ∷ r else r

pub record IsChangeStore {World : Type 0} (p : Platform World) (table_of : World → Text → List Row)
    : Type 0 where
  pub made : Text → Row → World → Row
  pub insert_reply :
      (t : Text) (r : Row) (h : List (Text × Text)) (w : World)
      → (p.fetch (Endpoint.config_insert t r) h w).0 ≡ response 200 (parsed (made t r w))
  pub insert_keeps :
      (t c : Text) (r : Row) (w : World)
      → is_assigned c ≡ false
      → column c (made t r w) ≡ column c r
  pub insert_appends :
      (t u : Text) (r : Row) (h : List (Text × Text)) (w : World)
      → table_of (p.fetch (Endpoint.config_insert t r) h w).1 u
        ≡ (if t == u then table_of w u ++ made t r w ∷ [] else table_of w u)
  pub updated : Text → Text → Row → World → Row
  pub update_reply :
      (t id : Text) (r : Row) (h : List (Text × Text)) (w : World)
      → (p.fetch (Endpoint.config_update t id r) h w).0 ≡ response 200 (parsed (updated t id r w))
  pub update_assigns :
      (t id c u : Text) (v : Value) (h : List (Text × Text)) (w : World)
      → is_assigned c ≡ false
      → table_of (p.fetch (Endpoint.config_update t id ((c, v) ∷ [])) h w).1 u
        ≡ (if t == u then map (assign id c v) (table_of w u) else table_of w u)

same_table : {A : Type 0} (t : Text) (x y : A) → (if t == t then x else y) ≡ x
same_table t x y = ground arith

answer_ok : {A : Type 0} (path : Text) (a : A) → answer path (response 200 (parsed a)) ≡ ok (some a)
unfolding answer
answer_ok path a = ground arith

module _ {World : Type 0} (p : Platform World) (table_of : World → Text → List Row)
    (store : IsChangeStore p table_of) (t : Text) (s : ClientState World) where
  abbrev done : {A : Type 0} → A → Effect World (Unit {0})
  done _ = pure tt

  abbrev after : Endpoint → ClientState World
  after e = (http p e s).1

  http_ok :
      (e : Endpoint) (r : Reply e)
      → (p.fetch e (auth_headers (extra_headers e) (get_api_key s.storage)) s.world).0
        ≡ response 200 (parsed r)
      → http p e s ≡ (ok (some r), after e)
  unfolding http
  http_ok e r h =
      ap (λ f. (f, after e)) (ap (answer (path_of p.encode p.encode_form e)) h ∙ answer_ok _ r)

  -- An insert succeeds and appends a row.
  pub config_insert_lem :
      (r : Row)
      → (s' : ClientState World) × ((do _ ← config_insert p t r; pure (tt {0})) s ≡ (ok tt, s'))
        × (table_of s'.world t ≡ table_of s.world t ++ store.made t r s.world ∷ [])
  unfolding config_insert http
  config_insert_lem r = (
    after (Endpoint.config_insert t r),
    >>=-ok (http p (Endpoint.config_insert t r)) done (
        http_ok (Endpoint.config_insert t r) (store.made t r s.world)
          (store.insert_reply t r _ s.world)),
    store.insert_appends t t r _ s.world ∙ same_table t _ _,
  )

  -- An update of one column succeeds and changes that column of the row with the id.
  pub config_update_lem :
      (id c : Text) (v : Value)
      → is_assigned c ≡ false
      → (s' : ClientState World) × ((do _ ← config_update p t id ((c, v) ∷ []); pure (tt {0})) s
          ≡ (ok tt, s'))
        × (table_of s'.world t ≡ map (assign id c v) (table_of s.world t))
  unfolding config_update http
  config_update_lem id c v free = (
    after (Endpoint.config_update t id ((c, v) ∷ [])),
    >>=-ok (http p (Endpoint.config_update t id ((c, v) ∷ []))) done (
        http_ok (Endpoint.config_update t id ((c, v) ∷ []))
          (store.updated t id ((c, v) ∷ []) s.world)
          (store.update_reply t id ((c, v) ∷ []) _ s.world)),
    store.update_assigns t id c t v _ s.world free ∙ same_table t _ _,
  )

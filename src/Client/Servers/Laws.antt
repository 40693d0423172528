-- ===== src/Client/Servers/Laws.antt =====
-- The servers that `deriveServers` lists, and when they are active.
use jvm_scout.Base.{
  ℕ, ◌≤◌, ◌≡◌, refl, ap, arith, ◌∷◌, [], List, Option, some, inl, inr, map, Text, All, Option-cases,
}
use jvm_scout.Client.Endpoints.{Instance}
use jvm_scout.Client.Http.{Platform, ClientState, ok, ◌>>=◌}
use jvm_scout.Client.Servers.{
  ServerStatus, active, dormant, offline, ServerRow, status_at, instance_id_of, seen_of, server_of,
  last_seen_of, servers_of,
}

-- A server that is seen later is never shown as less active.
abbrev rank : ServerStatus → ℕ
rank active = 2
rank dormant = 1
rank offline = 0

pub status_at_mono :
    (now seen later : ℕ)
    → seen ≤ later
    → rank (status_at now (some seen)) ≤ rank (status_at now (some later))
unfolding status_at
status_at_mono now seen later h = ground arith

module _ {World : Type 0} (p : Platform World) (iso : ℕ → Text) (time_of : Text → Option ℕ) where
  last_seen_of-total :
      (i : Instance) (s : ClientState World)
      → (t : Text) × (s' : ClientState World) × (last_seen_of p iso time_of i s ≡ (ok t, s'))
  unfolding last_seen_of
  last_seen_of-total i s = elim (Option-cases (seen_of i)) [
    | inl e ↦
        (iso (p.now s.world).0, record s { world = (p.now s.world).1 }, rw (e, last_seen_of) refl)
    | inr (t, e) ↦ (t, s, rw (e, last_seen_of) refl)
  ]

  -- From fetched instances one server is derived for each, in their order, whatever they lack; the
  -- status of each is that of the time it was last seen, at the time of the call.
  pub servers_of_total :
      (now : ℕ) (is : List Instance) (s : ClientState World)
      → (servers : List ServerRow) × (s' : ClientState World) × (servers_of p iso time_of now is s
          ≡ (ok servers, s'))
        × (map (λ r. r.id) servers ≡ map instance_id_of is)
        × All (λ r. r.status ≡ status_at now (time_of r.last_seen)) servers
  unfolding servers_of
  servers_of_total now [] s = ([], s, refl, refl, tt)
  servers_of_total now (i ∷ is) s =
      let (t, s1, seen) = last_seen_of-total i s in
      let (servers, s2, rest, ids, statuses) = servers_of_total now is s1 in
      (
        server_of p iso time_of now i t ∷ servers,
        s2,
        rw (seen, ◌>>=◌) (rw (rest, ◌>>=◌) refl),
        ap (◌∷◌ (instance_id_of i)) ids,
        (refl, statuses),
      )

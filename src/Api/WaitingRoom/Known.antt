-- ===== src/Api/WaitingRoom/Known.antt =====
-- The status route after the join route, over the memory store.
use arena_onsale.Prelude.{ℕ, ◌≡◌, ◌≢◌, ◌≤◌, refl, String, true, false, ap}
use arena_onsale.Prelude.Text.{strip, is_empty_text}
use arena_onsale.Settings.{Settings}
use arena_onsale.WaitingRoom.Memory.{Store, memory_store}
use arena_onsale.WaitingRoom.Service.{Standing, admitted, queued, unknown, Status, join_as, join}
use arena_onsale.WaitingRoom.Service.Known.{join_as-known, status-join_as}
use arena_onsale.Api.{replied}
use arena_onsale.Api.Schemas.{fits_field}
use arena_onsale.Api.WaitingRoom.{
  WaitingRoomResponse, shown, known_or_missing, join_route, status_route,
}

not_missing :
    (st : Standing) (x : Status) → st ≢ unknown → known_or_missing st x ≡ replied 200 (shown st x)
not_missing unknown x h = absurd (h refl)
not_missing (admitted token until) x h = refl
not_missing (queued position wait) x h = refl

-- A name that fits the schema and is not blank.
abbrev pub IsName : String → Type 0
IsName visitor_id = (fits_field visitor_id ≡ true) × (is_empty_text (strip visitor_id) ≡ false)

join_named :
    (cfg : Settings) (f : ℕ → String) (now : ℕ) (visitor_id : String) (s : Store)
    → IsName visitor_id
    → let (x, s') = join_as memory_store cfg f now (strip visitor_id) s in
      join_route memory_store cfg f now visitor_id s ≡ (replied 200 (shown x.state x), s')
unfolding join_route join
join_named cfg f now visitor_id s n = rw n.0 (rw n.1 refl)

-- A join under a name is answered with 200, and the status that is asked for the name right after it is
-- answered with 200 and the same body: nobody who has joined is told that he is not in the waiting room.
-- A stay must last a second at least.
pub status_route-join_route :
    (cfg : Settings) (f : ℕ → String) (now : ℕ) (visitor_id : String) (s : Store)
    → 1 ≤ cfg.shopping_ttl_seconds
    → IsName visitor_id
    → let (r, s') = join_route memory_store cfg f now visitor_id s in
      (a : WaitingRoomResponse) × (r ≡ replied 200 a)
      × (status_route memory_store cfg now (strip visitor_id) s' ≡ (replied 200 a, s'))
unfolding status_route
status_route-join_route cfg f now visitor_id s stays n =
    let v = strip visitor_id in
    let (x, s') = join_as memory_store cfg f now v s in
    rw (join_named cfg f now visitor_id s n) (
      shown x.state x,
      refl,
      rw (status-join_as cfg f now v s)
          (ap (λ r. (r, s')) (not_missing x.state x (join_as-known cfg f now v stays s))),
    )

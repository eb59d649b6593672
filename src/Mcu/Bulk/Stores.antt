-- ===== src/Mcu/Bulk/Stores.antt =====
-- libloragw/src/loragw_mcu.c: requests that are stored one after the other (`mcu_spi_store`).
use mathlib.Core.List.{append_assoc, append-nil}
use meshbeacon_uplink.Prelude.{
  ℕ, ◌+◌, ◌<◌, ◌≤◌, ◌≡◌, refl, sym, ap, ◌∙◌, Bool, true, List, [], ◌∷◌, ◌++◌, ltb, ◌==◌,
  if◌then◌else◌, length, take, drop, arith, if_false, length-take, length-drop, subst,
  length-append, take_prefix,
}
use meshbeacon_uplink.Mcu.Bulk.{SpiReqBulk, spi_req_bulk_insert, mcu_spi_store, lgw_usb_burst_chunk}

unfoldable pub joined : List (List ℕ) → List ℕ
joined [] = []
joined (req ∷ reqs) = req ++ joined reqs

-- The requests are stored in turn, until one is not.
unfoldable pub store_all : SpiReqBulk → List (List ℕ) → Bool × SpiReqBulk
store_all bulk [] = (true, bulk)
store_all bulk (req ∷ reqs) =
    let r = mcu_spi_store bulk req in let rest = store_all r.1 reqs in if r.0 then rest else r

-- The requests stand behind those that were stored before.
pub record Stored (bulk : SpiReqBulk) (reqs : List (List ℕ)) (r : Bool × SpiReqBulk) : Type 0 where
  pub is_stored : r.0 ≡ true
  pub size_after : r.1.size ≡ bulk.size + length (joined reqs)
  pub requests_after : take (r.1.size) (r.1.buffer) ≡ take bulk.size bulk.buffer ++ joined reqs
  pub room_after : length (r.1.buffer) ≡ lgw_usb_burst_chunk

-- The state behind one request that fits.
inserted : SpiReqBulk → List ℕ → SpiReqBulk
inserted bulk req = record {
  size = bulk.size + length req;
  nb_req = bulk.nb_req + 1;
  buffer = take bulk.size bulk.buffer ++ req ++ drop (bulk.size + length req) bulk.buffer;
}

mcu_spi_store-inserted :
    (bulk : SpiReqBulk) (req : List ℕ)
    → bulk.nb_req < 255
    → bulk.size + length req ≤ lgw_usb_burst_chunk
    → mcu_spi_store bulk req ≡ (true, inserted bulk req)
unfolding mcu_spi_store spi_req_bulk_insert inserted
mcu_spi_store-inserted bulk req h1 h2 =
    if_false (bulk.nb_req == 255) _ _ (ground arith)
    ∙ if_false (ltb lgw_usb_burst_chunk (bulk.size + length req)) _ _ (ground arith)

inserted-take :
    (bulk : SpiReqBulk) (req : List ℕ)
    → bulk.size ≤ length bulk.buffer
    → take ((inserted bulk req).size) ((inserted bulk req).buffer)
      ≡ take bulk.size bulk.buffer ++ req
unfolding inserted
inserted-take bulk req h =
    let before = take bulk.size bulk.buffer in
    take_prefix (bulk.size + length req) (before ++ req) _
      (omega (arith, length-append before req, length-take bulk.size bulk.buffer h))

inserted-length :
    (bulk : SpiReqBulk) (req : List ℕ)
    → bulk.size + length req ≤ length bulk.buffer
    → length (inserted bulk req).buffer ≡ length bulk.buffer
unfolding inserted
inserted-length bulk req h =
    let before = take bulk.size bulk.buffer in
    let behind = drop (bulk.size + length req) bulk.buffer in
    omega (
      arith,
      length-append (before ++ req) behind,
      length-append before req,
      length-take bulk.size bulk.buffer (omega arith),
      length-drop (bulk.size + length req) bulk.buffer,
    )

-- No request is left out, if there are at most 255 and they fit the buffer.
pub store_all-Stored :
    (bulk : SpiReqBulk) (reqs : List (List ℕ))
    → bulk.nb_req + length reqs ≤ 255
    → bulk.size + length (joined reqs) ≤ lgw_usb_burst_chunk
    → length bulk.buffer ≡ lgw_usb_burst_chunk
    → Stored bulk reqs (store_all bulk reqs)
unfolding store_all joined inserted
store_all-Stored bulk [] h1 h2 h3 = record {
  is_stored = refl;
  size_after = omega arith;
  requests_after = sym (append-nil _);
  room_after = h3;
}
store_all-Stored bulk (req ∷ reqs) h1 h2 h3 =
    let lengths = length-append req (joined reqs) in
    let one = mcu_spi_store-inserted bulk req (omega arith) (omega (arith, lengths)) in
    let next = inserted bulk req in
    let ih =
      store_all-Stored next reqs (omega arith) (omega (arith, lengths))
        (inserted-length bulk req (omega (arith, lengths)) ∙ h3) in
    let taken = inserted-take bulk req (omega arith) in
    let whole : Stored bulk (req ∷ reqs) (store_all next reqs) = record {
      is_stored = ih.is_stored;
      size_after = omega (arith, ih.size_after, lengths);
      requests_after =
          ih.requests_after
          ∙ ap (λ bs. bs ++ joined reqs) taken
          ∙ append_assoc (take bulk.size bulk.buffer) req (joined reqs);
      room_after = ih.room_after;
    } in
    subst
      (λ (r : Bool × SpiReqBulk). Stored bulk (req ∷ reqs) (if r.0 then store_all r.1 reqs else r))
      (sym one) whole

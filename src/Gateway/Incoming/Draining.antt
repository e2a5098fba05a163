-- ===== src/Gateway/Incoming/Draining.antt =====
-- The payload of a PUBLISH leaves the stream whole, whatever its length.
use climate_node.Common.{
  ℕ, zero, suc, ◌+◌, ◌-◌, ◌≤◌, ◌≡◌, refl, sym, ap, ◌∙◌, min, Bool, List, [], ◌∷◌, some, length,
  take, drop, arith,
}
use climate_node.Zephyr.{Rc}
use climate_node.Commands.{Node, Dedupe}
use climate_node.Protocol.{Nanopb}
use climate_node.Gateway.Incoming.{
  Sessions, PublishEvt, after_reading, handle_incoming_publish, Reader, drained, drain_with, drain,
  read_payload,
}

-- What the library documents of a connection that delivers: a read of no more than what the broker
-- sent gives exactly the next bytes.
pub record Delivers (m : Reader) : Type 0 where
  pub ahead : m.Stream → List ℕ
  pub reads :
      (k : ℕ) (st : m.Stream)
      → k ≤ length (ahead st)
      → (st' : m.Stream) × (m.readall k st ≡ some (take k (ahead st), st'))
        × (ahead st' ≡ drop k (ahead st))

drop_none : (j : ℕ) (xs : List ℕ) → xs ≡ [] → drop j xs ≡ []
drop_none zero xs h = h
drop_none (suc j) [] h = refl
drop_none (suc j) (x ∷ xs) h = ground arith

drop-drop : (i j : ℕ) (xs : List ℕ) → drop j (drop i xs) ≡ drop (i + j) xs
drop-drop zero j xs = let e : j ≡ 0 + j = omega arith in ap (λ k. drop k xs) e
drop-drop (suc i) j [] = drop_none j [] refl ∙ sym (drop_none (suc i + j) [] refl)
drop-drop (suc i) j (x ∷ xs) =
    let e : suc (i + j) ≡ suc i + j = omega arith in drop-drop i j xs ∙ ap (λ k. drop k (x ∷ xs)) e

length-drop : (k : ℕ) (xs : List ℕ) → length (drop k xs) ≡ length xs - k
length-drop zero xs = omega arith
length-drop (suc k) [] = omega arith
length-drop (suc k) (x ∷ xs) = omega (arith, length-drop k xs)

module _ (m : Reader) (law : Delivers m) where
  drain_with_lem :
      (fuel k : ℕ) (st : m.Stream)
      → k ≤ fuel
      → k ≤ length (law.ahead st)
      → (st' : m.Stream) × (drain_with m fuel k st ≡ drained st')
        × (law.ahead st' ≡ drop k (law.ahead st))
  unfolding drain_with
  drain_with_lem fuel zero st h l = (st, refl, refl)
  drain_with_lem zero (suc k) st h l = absurd (omega arith)
  drain_with_lem (suc fuel) (suc k) st h l =
      let chunk = min (suc k) 64 in
      let (st1, e1, a1) = law.reads chunk st (omega arith) in
      let room : suc k - chunk ≤ length (law.ahead st1) =
        rw (a1) (omega (arith, length-drop chunk (law.ahead st))) in
      let (st', e', a') = drain_with_lem fuel (suc k - chunk) st1 (omega arith) room in
      let whole : chunk + (suc k - chunk) ≡ suc k = omega arith in
      (
        st',
        rw (e1, e') refl,
        a'
            ∙ (ap (drop (suc k - chunk)) a1
                ∙ (drop-drop chunk (suc k - chunk) (law.ahead st)
                    ∙ ap (λ i. drop i (law.ahead st)) whole)),
      )

  read_payload_lem :
      (len : ℕ) (st : m.Stream)
      → len ≤ length (law.ahead st)
      → (st' : m.Stream) × (read_payload m len st
          ≡ drained (take (min len 128) (law.ahead st), st'))
        × (law.ahead st' ≡ drop len (law.ahead st))
  unfolding read_payload drain
  read_payload_lem len st h =
      let kept = min len 128 in
      let (st1, e1, a1) = law.reads kept st (omega arith) in
      let room : len - kept ≤ length (law.ahead st1) =
        rw (a1) (omega (arith, length-drop kept (law.ahead st))) in
      let (st', e', a') = drain_with_lem (len - kept) (len - kept) st1 (omega arith) room in
      let whole : kept + (len - kept) ≡ len = omega arith in
      (
        st',
        rw (e1, e') refl,
        a'
            ∙ (ap (drop (len - kept)) a1
                ∙ (drop-drop kept (len - kept) (law.ahead st)
                    ∙ ap (λ i. drop i (law.ahead st)) whole)),
      )

  module _ (n : Node) (pb : Nanopb) where
    -- Of a connection that delivers the payload of a PUBLISH: it is read to its end, however long and
    -- in however many turns of the draining loop, so that the stream stands at the byte after it; and
    -- what is done is done with its first 128 bytes, or with all of it if it is no longer.
    pub handle_incoming_publish_lem :
        (which : Bool) (e : PublishEvt) (st : m.Stream) (rc : Rc) (ss : Sessions) (d : Dedupe)
        (b : n.Bus)
        → e.len ≤ length (law.ahead st)
        → let (acts, ss', d', b') =
            after_reading n pb which e (take (min e.len 128) (law.ahead st)) rc ss d b in
          (st' : m.Stream) × (handle_incoming_publish n pb m which e st rc ss d b
            ≡ (drained st', acts, ss', d', b'))
          × (law.ahead st' ≡ drop e.len (law.ahead st))
    unfolding handle_incoming_publish
    handle_incoming_publish_lem which e st rc ss d b h =
        let (st', whole, at_end) = read_payload_lem e.len st h in (st', rw (whole), at_end)

-- ===== src/Signaling/Offers.antt =====
-- The offers that a client of webrtc/signaling/client.go reads once it has subscribed to them.
use pdf_to_epub.Prelude.{
  Bool, true, false, ◌&&◌, some, List, [], ◌∷◌, ◌++◌, ◌≡◌, refl, sym, ap, ◌∙◌, arith, append_assoc,
  append-nil, Option-cases, inl, inr,
}
use pdf_to_epub.Signaling.Steps.{
  Step, read, take_offer, subscribe, close_client, register, tidy, Trace, note, take_step, step,
  run, start,
}
use pdf_to_epub.Signaling.{
  WsServerMessage, SignalingClient, read_message, subscribe_offers, on_answer,
}

-- What was taken and what waits to be taken are the offers that were there and those that were read.
abbrev Kept : List WsServerMessage → Trace → Type 0
Kept first t =
    (t.client.offer_subscribed ≡ true)
    × (t.client.done ≡ false)
    × (t.taken ++ t.client.offers ≡ first ++ t.seen)

-- Whether a step is one of a client that stays open.
abbrev pub is_open : Step → Bool
is_open close_client = false
is_open _ = true

read_message-offers :
    (msg : WsServerMessage) (c c' : SignalingClient)
    → c.offer_subscribed ≡ true
    → c.done ≡ false
    → read_message msg c ≡ some c'
    → (c'.offer_subscribed ≡ true) × (c'.done ≡ false) × (c'.offers ≡ note msg c.offers)
unfolding read_message
read_message-offers msg c c' s d e = ground (arith, s, d, e)

note-append :
    (msg : WsServerMessage) (front back : List WsServerMessage)
    → note msg (front ++ back) ≡ front ++ note msg back
note-append msg front back = ground (arith, append_assoc front back (msg ∷ []))

take-Kept :
    (first offers : List WsServerMessage) (t : Trace)
    → t.client.offers ≡ offers
    → Kept first t
    → Kept first (take_step offers t)
take-Kept first [] t e k = k
take-Kept first (offer ∷ offers) t e (s, d, k) =
    (s, d, append_assoc t.taken (offer ∷ []) offers ∙ ap (λ l. t.taken ++ l) (sym e) ∙ k)

step-Kept :
    (first : List WsServerMessage) (x : Step) (t : Trace)
    → is_open x ≡ true
    → Kept first t
    → Kept first (step x t)
unfolding subscribe_offers on_answer
step-Kept first (read msg) t o (s, d, k) = elim (Option-cases (read_message msg t.client)) [
  | inl n ↦ rw n (s, d, k)
  | inr (c, e) ↦
      let (s', d', q) = read_message-offers msg t.client c s d e in
      rw e (
        s',
        d',
        ap (λ l. t.taken ++ l) q
            ∙ sym (note-append msg t.taken t.client.offers)
            ∙ ap (note msg) k
            ∙ note-append msg first t.seen,
      )
]
step-Kept first take_offer t o k = take-Kept first t.client.offers t refl k
step-Kept first subscribe t o (s, d, k) = (refl, d, k)
step-Kept first close_client t o k = absurd (ground (arith, o))
step-Kept first (register now id) t o k = k
step-Kept first (tidy now) t o k = k

abbrev pub all_open : List Step → Bool
all_open [] = true
all_open (x ∷ steps) = is_open x && all_open steps

run-Kept :
    (first : List WsServerMessage) (steps : List Step) (t : Trace)
    → all_open steps ≡ true
    → Kept first t
    → Kept first (run steps t)
unfolding run
run-Kept first [] t o k = k
run-Kept first (x ∷ steps) t o k =
    run-Kept first steps (step x t) (ground (arith, o)) (step-Kept first x t (ground (arith, o)) k)

-- For a client that has subscribed to offers, is open and stays so, the offers that its user takes in
-- any steps, followed by those that are still queued, are the ones that were queued before, followed by
-- those that it reads in these steps, in their order: none is lost, and none comes twice.
pub run-offers :
    (steps : List Step) (c : SignalingClient)
    → all_open steps ≡ true
    → c.offer_subscribed ≡ true
    → c.done ≡ false
    → (let t = run steps (start c) in t.taken ++ t.client.offers ≡ c.offers ++ t.seen)
run-offers steps c o s d =
    let (_, _, k) = run-Kept c.offers steps (start c) o (s, d, sym (append-nil c.offers)) in k

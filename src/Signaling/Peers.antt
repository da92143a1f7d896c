-- ===== src/Signaling/Peers.antt =====
-- How many peers webrtc/signaling/client.go keeps.
use pdf_to_epub.Prelude.{
  ◌+◌, ◌≤◌, Option, none, some, List, [], ◌∷◌, ltb, Str, codes, str_eq, length, take,
  length-take-le, ◌≡◌, arith, inl, inr, if_cases, Option-cases,
}
use pdf_to_epub.Prelude.Map.{Map, insert, length-insert, length-delete-le}
use pdf_to_epub.Signaling.Steps.{
  Step, read, take_offer, subscribe, close_client, register, tidy, Trace, take_step, step, run,
  start,
}
use pdf_to_epub.Signaling.{
  subscribe_offers, on_answer, close, ClientInfo, WsServerMessage, SignalingClient, max_peers,
  add_peers, hello_peers, wait_for_hello, join, update, leave, handle_peer_update, read_message,
}

add_peers_le :
    (peers : List ClientInfo) (m : Map ClientInfo)
    → length (add_peers peers m) ≤ length peers + length m
unfolding add_peers
add_peers_le [] m = omega arith
add_peers_le (peer ∷ peers) m =
    ground (arith, add_peers_le peers (insert peer.id peer m), length-insert peer.id peer m)

hello_peers_le : (o : Option (List ClientInfo)) → length (hello_peers o) ≤ max_peers
hello_peers_le none = omega arith
hello_peers_le (some peers) =
    if_cases (λ (l : List ClientInfo). length (add_peers l []) ≤ max_peers)
      (ltb max_peers (length peers)) _ _
      (λ _. omega (arith, add_peers_le (take max_peers peers) [], length-take-le max_peers peers))
      (λ f. ground (arith, f, add_peers_le peers []))

join_le :
    (o : Option ClientInfo) (m : Map ClientInfo)
    → length m ≤ max_peers
    → length (join o m) ≤ max_peers
join_le none m l = l
join_le (some peer) m l = ground (arith, l, length-insert peer.id peer m)

update_le :
    (o : Option ClientInfo) (m : Map ClientInfo)
    → length m ≤ max_peers
    → length (update o m) ≤ max_peers
update_le none m l = l
update_le (some peer) m l = ground (arith, l, length-insert peer.id peer m)

leave_le :
    (o : Option Str) (m : Map ClientInfo) → length m ≤ max_peers → length (leave o m) ≤ max_peers
leave_le none m l = l
leave_le (some id) m l = omega (arith, l, length-delete-le id m)

handle_peer_update_le :
    (msg : WsServerMessage) (m : Map ClientInfo)
    → length m ≤ max_peers
    → length (handle_peer_update msg m) ≤ max_peers
unfolding handle_peer_update
handle_peer_update_le msg m l =
    let P : Map ClientInfo → Type 0 = λ m'. length m' ≤ max_peers in
    if_cases P (str_eq msg.type (codes "JOIN")) _ _ (λ _. join_le msg.peer m l)
      (λ _.
        if_cases P (str_eq msg.type (codes "UPDATE")) _ _ (λ _. update_le msg.peer m l)
          (λ _.
            if_cases P (str_eq msg.type (codes "LEFT")) _ _ (λ _. leave_le msg.peer_id m l)
              (λ _. l)))

read_message-peers :
    (msg : WsServerMessage) (c c' : SignalingClient)
    → read_message msg c ≡ some c'
    → c'.peers ≡ handle_peer_update msg c.peers
unfolding read_message
read_message-peers msg c c' e = ground (arith, e)

take_le :
    (offers : List WsServerMessage) (t : Trace)
    → length t.client.peers ≤ max_peers
    → length (take_step offers t).client.peers ≤ max_peers
take_le [] t l = l
take_le (offer ∷ offers) t l = l

step_le :
    (s : Step) (t : Trace)
    → length t.client.peers ≤ max_peers
    → length (step s t).client.peers ≤ max_peers
unfolding subscribe_offers on_answer close
step_le (read msg) t l = elim (Option-cases (read_message msg t.client)) [
  | inl n ↦ rw n l
  | inr (c, e) ↦
      rw e (rw (read_message-peers msg t.client c e) (handle_peer_update_le msg t.client.peers l))
]
step_le take_offer t l = take_le t.client.offers t l
step_le subscribe t l = l
step_le close_client t l = ground (arith, l)
step_le (register now id) t l = l
step_le (tidy now) t l = l

run_le :
    (steps : List Step) (t : Trace)
    → length t.client.peers ≤ max_peers
    → length (run steps t).client.peers ≤ max_peers
unfolding run
run_le [] t l = l
run_le (s ∷ steps) t l = run_le steps (step s t) (step_le s t l)

wait_for_hello_le :
    (msg : WsServerMessage) (c : SignalingClient)
    → wait_for_hello msg ≡ some c
    → length c.peers ≤ max_peers
unfolding wait_for_hello
wait_for_hello_le msg c e = ground (arith, e, hello_peers_le msg.peers)

-- A client that a HELLO of the server made, with any list of peers, has at most 500 peers after any
-- steps: messages that it reads, and what its user does.
pub wait_for_hello-run_le :
    (hello : WsServerMessage) (steps : List Step) (c : SignalingClient)
    → wait_for_hello hello ≡ some c
    → length (run steps (start c)).client.peers ≤ max_peers
wait_for_hello-run_le hello steps c h = run_le steps (start c) (wait_for_hello_le hello c h)

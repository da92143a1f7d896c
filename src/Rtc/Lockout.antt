-- ===== src/Rtc/Lockout.antt =====
-- Wrong PINs on a connection: `handlePin` and the peers that are blocked, in
-- webrtc/transfer/receiver.go.
use mathlib.Core.Path.{subst, sym}
use pdf_to_epub.Errors.{max_pin_attempts, pin_block_duration}
use pdf_to_epub.Prelude.{
  ℕ, ◌+◌, ◌<◌, ◌≤◌, Bool, true, none, some, List, [], ◌∷◌, Str, length, ◌≡◌, ◌≢◌, arith, All,
}
use pdf_to_epub.Prelude.Map.{Map, lookup, lookup-insert_self}
use pdf_to_epub.Rtc.{pin_message, parse_rtc_message}
use pdf_to_epub.Rtc.Frames.{
  Frame, Offer, Setup, blocked, delimiter, handle_control, handle_text, handle_data_message,
  handle_frames, accept_offer,
}
use pdf_to_epub.Rtc.Handshake.{handle_pin, refuse_pin}
use pdf_to_epub.Rtc.Receiver.{
  wait_pin, done, Env, RtcReceiver, send_json, terminate, cleanup_partial_files, mark_transfer_done,
  drop_unblocked, is_peer_blocked, block_peer,
}

-- A text frame with a PIN that is not the receiver's.
abbrev pub IsWrong : Env → Str → Frame → Type 0
IsWrong env pin f =
    (f.is_string ≡ true)
    × (f.bytes ≢ delimiter)
    × ((p : Str) × (parse_rtc_message (env.json f.bytes) ≡ some (pin_message p)) × (p ≢ pin))

wrong_frame :
    (env : Env) (f : Frame) (r : RtcReceiver)
    → r.state ≡ wait_pin
    → IsWrong env r.pin f
    → handle_data_message env f r
      ≡ some (refuse_pin env (record r { pin_attempts = r.pin_attempts + 1 }))
unfolding handle_data_message handle_text handle_control handle_pin
wrong_frame env f r s (t, d, (p, e, w)) = ground (arith, s, t, d, e, w)

-- What is kept as long as the sender may try again.
abbrev Waiting : RtcReceiver → ℕ → RtcReceiver → Type 0
Waiting r n r' =
    (r'.state ≡ wait_pin)
    × (r'.pin ≡ r.pin)
    × (r'.pin_attempts ≡ n)
    × (r'.sender_signaling_id ≡ r.sender_signaling_id)

refuse_pin-Waiting :
    (env : Env) (r : RtcReceiver) (n : ℕ)
    → r.state ≡ wait_pin
    → n < max_pin_attempts
    → Waiting r n (refuse_pin env (record r { pin_attempts = n }))
unfolding send_json
refuse_pin-Waiting env r n s l = ground arith

-- The connection is gone, and the sender is blocked.
abbrev Locked : ℕ → Str → RtcReceiver → Type 0
Locked until id r = (r.state ≡ done) × (r.peer ≡ none) × (lookup id r.blocked_peers ≡ some until)

refuse_pin-Locked :
    (env : Env) (r : RtcReceiver) (n : ℕ)
    → max_pin_attempts ≤ n
    → r.sender_signaling_id ≢ []
    → Locked
        (env.now + pin_block_duration)
        r.sender_signaling_id
        (refuse_pin env (record r { pin_attempts = n }))
unfolding send_json terminate cleanup_partial_files mark_transfer_done block_peer
refuse_pin-Locked env r n l i =
    ground (
      arith,
      lookup-insert_self r.sender_signaling_id (env.now + pin_block_duration) r.blocked_peers,
    )

handle_frames-Locked :
    (env : Env) (frames : List Frame) (last : Frame) (r : RtcReceiver)
    → r.state ≡ wait_pin
    → r.sender_signaling_id ≢ []
    → All (IsWrong env r.pin) (last ∷ frames)
    → r.pin_attempts + length frames + 1 ≡ max_pin_attempts
    → (r' : RtcReceiver) × (handle_frames env (last ∷ frames) r ≡ some r')
      × Locked (env.now + pin_block_duration) r.sender_signaling_id r'
unfolding handle_frames
handle_frames-Locked env [] last r s i w n = (
  refuse_pin env (record r { pin_attempts = r.pin_attempts + 1 }),
  ground (arith, wrong_frame env last r s w.0),
  refuse_pin-Locked env r (r.pin_attempts + 1) (omega (arith, n)) i,
)
handle_frames-Locked env (next ∷ frames) last r s i w n =
    let m = r.pin_attempts + 1 in
    let r1 = refuse_pin env (record r { pin_attempts = m }) in
    let (s1, p1, n1, i1) = refuse_pin-Waiting env r m s (omega (arith, n)) in
    let (r', e, l) =
      handle_frames-Locked env frames next r1 s1 (ground (arith, i, i1))
        (subst (λ p. All (IsWrong env p) (next ∷ frames)) (sym p1) w.1) (omega (arith, n, n1)) in
    (r', ground (arith, wrong_frame env last r s w.0, e), ground (arith, l, i1))

lookup-drop_unblocked :
    (now : ℕ) (id : Str) (until : ℕ) (m : Map ℕ)
    → lookup id m ≡ some until
    → now ≤ until
    → lookup id (drop_unblocked now m) ≡ some until
unfolding drop_unblocked lookup
lookup-drop_unblocked now id until [] e l = e
lookup-drop_unblocked now id until ((k, u) ∷ m) e l =
    ground (arith, lookup-drop_unblocked now id until m)

accept_offer-blocked :
    (env : Env) (offer : Offer) (setup : Setup) (answer_fails : Bool) (until : ℕ) (r : RtcReceiver)
    → lookup offer.peer_id r.blocked_peers ≡ some until
    → env.now < until
    → (accept_offer env offer setup answer_fails r).1 ≡ blocked
unfolding accept_offer is_peer_blocked
accept_offer-blocked env offer setup answer_fails until r e l =
    ground (arith, lookup-drop_unblocked env.now offer.peer_id until r.blocked_peers e, l)

-- Where the PIN is due and the sender has an identifier, text frames with wrong PINs that make up
-- the limit with the attempts before them end the connection without a panic, and the next offer
-- under that identifier, if it comes before the block is over, is refused as blocked.
pub handle_frames_locks :
    (env later : Env) (frames : List Frame) (last : Frame) (r : RtcReceiver) (offer : Offer)
    (setup : Setup) (answer_fails : Bool)
    → r.state ≡ wait_pin
    → r.sender_signaling_id ≢ []
    → All (IsWrong env r.pin) (last ∷ frames)
    → r.pin_attempts + length frames + 1 ≡ max_pin_attempts
    → offer.peer_id ≡ r.sender_signaling_id
    → later.now < env.now + pin_block_duration
    → (r' : RtcReceiver) × (handle_frames env (last ∷ frames) r ≡ some r')
      × (r'.state ≡ done)
      × (r'.peer ≡ none)
      × ((accept_offer later offer setup answer_fails r').1 ≡ blocked)
handle_frames_locks env later frames last r offer setup answer_fails s i w n o l =
    let (r', e, (d, p, b)) = handle_frames-Locked env frames last r s i w n in
    (r', e, d, p, accept_offer-blocked later offer setup answer_fails _ r' (rw o b) l)

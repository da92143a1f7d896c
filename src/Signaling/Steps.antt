-- ===== src/Signaling/Steps.antt =====
-- The steps of a client of webrtc/signaling/client.go: messages that are read, and what its user does.
use pdf_to_epub.Prelude.{ℕ, Option, none, some, List, [], ◌∷◌, ◌++◌, if◌then◌else◌, Str, codes}
use pdf_to_epub.Signaling.{
  WsServerMessage, SignalingClient, is_type, read_message, subscribe_offers, on_answer, close,
  drop_stale_callbacks,
}

pub data Step : Type 0 where
  read : WsServerMessage → Step
  take_offer subscribe close_client : Step
  register : ℕ → Str → Step
  tidy : ℕ → Step

-- The client, the offers that were taken, and those that were read, first first.
pub record Trace : Type 0 where
  pub client : SignalingClient
  pub taken : List WsServerMessage
  pub seen : List WsServerMessage

abbrev pub note : WsServerMessage → List WsServerMessage → List WsServerMessage
note msg seen = if is_type (codes "OFFER") msg then seen ++ (msg ∷ []) else seen

-- A message that has to wait is not read yet.
abbrev pub read_step : WsServerMessage → Option SignalingClient → Trace → Trace
read_step msg none t = t
read_step msg (some c) t = record t { client = c; seen = note msg t.seen }

abbrev pub take_step : List WsServerMessage → Trace → Trace
take_step [] t = t
take_step (offer ∷ offers) t = record t {
  client = record t.client { offers = offers };
  taken = t.taken ++ (offer ∷ []);
}

abbrev pub with_client : Trace → SignalingClient → Trace
with_client t c = record t { client = c }

abbrev pub step : Step → Trace → Trace
step (read msg) t = read_step msg (read_message msg t.client) t
step take_offer t = take_step t.client.offers t
step subscribe t = with_client t (subscribe_offers t.client)
step close_client t = with_client t (close t.client)
step (register now id) t = with_client t (on_answer now id t.client)
step (tidy now) t =
    with_client t (record t.client { on_answer = drop_stale_callbacks now t.client.on_answer })

unfoldable pub run : List Step → Trace → Trace
run [] t = t
run (s ∷ steps) t = run steps (step s t)

abbrev pub start : SignalingClient → Trace
start c = record { client = c; taken = []; seen = [] }

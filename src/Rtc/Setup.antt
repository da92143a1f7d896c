-- ===== src/Rtc/Setup.antt =====
-- A new receiver of webrtc/transfer/receiver.go, and what is set on it.
use pdf_to_epub.Crypto.Token.{VerifyingKey}
use pdf_to_epub.Disk.{Disk}
use pdf_to_epub.Prelude.{ℕ, Bool, false, none, some, [], Str}
use pdf_to_epub.Prelude.Map.{Map}
use pdf_to_epub.Rtc.Receiver.{wait_nonce, RtcReceiver}
use pdf_to_epub.TrustedDevices.{TrustedDeviceStore}

-- The peers that are blocked and the disk outlive a receiver.
abbrev pub new_rtc_receiver : Str → Str → Map ℕ → Disk → RtcReceiver
new_rtc_receiver pin save_dir blocked_peers disk = record {
  peer = none;
  accepting = false;
  pin = pin;
  pin_attempts = 0;
  provided_pin_attempts = 0;
  save_dir = save_dir;
  ext_routes = none;
  folder_remap = none;
  state = wait_nonce;
  remote_nonce = [];
  local_nonce = [];
  final_nonce = [];
  sender_public_key = none;
  require_pairing = false;
  files = [];
  file_by_id = [];
  file_tokens = [];
  accepted_ids = [];
  folder_transfer_known = false;
  folder_transfer = false;
  current_file_id = [];
  writers = [];
  current_bytes = 0;
  control_buffer = [];
  ensured_dirs = [];
  unique_files = [];
  transfer_active = false;
  trusted_store = none;
  sender_alias = [];
  sender_public_pem = [];
  sender_token = [];
  sender_signaling_id = [];
  blocked_peers = blocked_peers;
  disk = disk;
  sent = [];
  ticks = 0;
}

abbrev pub set_sender_public_key : VerifyingKey → RtcReceiver → RtcReceiver
set_sender_public_key key r = record r { sender_public_key = some key }

abbrev pub set_require_pairing : Bool → RtcReceiver → RtcReceiver
set_require_pairing require r = record r { require_pairing = require }

abbrev pub set_extension_routes : Map Str → RtcReceiver → RtcReceiver
set_extension_routes routes r = record r { ext_routes = some routes }

abbrev pub set_trusted_store : TrustedDeviceStore → RtcReceiver → RtcReceiver
set_trusted_store store r = record r { trusted_store = some store }

abbrev pub set_sender_info : Str → RtcReceiver → RtcReceiver
set_sender_info alias r = record r { sender_alias = alias }

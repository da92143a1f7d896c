-- ===== src/Upload/Whole.antt =====
-- What it means that `Start` of localsend/send/fwdsend.go returns no error.
use pdf_to_epub.Prelude.{
  ℕ, zero, suc, Bool, true, false, Option, none, some, ◌==◌, if◌then◌else◌, Str, ◌≡◌, all,
}
use pdf_to_epub.Prelude.Map.{Map}
use pdf_to_epub.Upload.{
  Env, ForwardSender, StartError, files_failed, prepare_failed, max_upload_attempts,
}

-- An upload was answered with 200, after answers of a wrong checksum only.
unfoldable pub was_uploaded : Env → Str → Str → Str → ℕ → ℕ → Bool
was_uploaded env session id token attempt zero = false
was_uploaded env session id token attempt (suc rounds) =
    let later = was_uploaded env session id token (suc attempt) rounds in
    elim (env.upload attempt id token session) [
      | none ↦ false
      | some status ↦ if status == 200 then true else if status == 422 then later else false
    ]

-- All the files that the receiver gave a token.
abbrev pub all_uploaded : Env → ForwardSender → Map Str → Bool
all_uploaded env s tokens =
    all (λ (t : Str × Str). was_uploaded env s.session t.0 t.1 0 max_upload_attempts) tokens

-- What Start ends with.
abbrev pub Ended : Env → ForwardSender × Option StartError → Type 0
Ended env (s, none) = all_uploaded env s s.tokens ≡ true
Ended env (s, some (files_failed n e)) = s.abort ≡ true
Ended env (s, some (prepare_failed e)) = s.abort ≡ false

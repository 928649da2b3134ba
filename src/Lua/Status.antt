-- ===== src/Lua/Status.antt =====
-- `absl::Status` and `absl::StatusOr`, as plugins/samples/lua uses them. Abseil is not in the
-- repository; only the names are used here. A plain `Status` is a `StatusOr Unit`.
use service_extensions_sampl.Base.{Text, ◌≡◌, refl, ◌⊎◌, inl, inr, Bool, true, false}

pub data StatusCode : Type 0 where
  invalid_argument failed_precondition out_of_range unauthenticated : StatusCode
  permission_denied not_found already_exists resource_exhausted unimplemented : StatusCode
  unavailable deadline_exceeded internal unknown data_loss aborted cancelled : StatusCode

pub record Status : Type 0 where
  pub code : StatusCode
  pub message : Text

pub data StatusOr (A : Type 0) : Type 0 where
  fine : A → StatusOr A
  failed : Status → StatusOr A

abbrev pub error_of : {A : Type 0} → StatusCode → Text → StatusOr A
error_of code message = failed (record { code = code; message = message })

abbrev pub is_fine : {A : Type 0} → StatusOr A → Bool
is_fine (fine a) = true
is_fine (failed e) = false

pub StatusOr-cases :
    {A : Type 0} (r : StatusOr A) → ((e : Status) × (r ≡ failed e)) ⊎ ((a : A) × (r ≡ fine a))
StatusOr-cases (failed e) = inl (e, refl)
StatusOr-cases (fine a) = inr (a, refl)

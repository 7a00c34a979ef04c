-- ===== src/Msg/Kinds.antt =====
-- How `CommError::from` of src/msg.rs sorts I/O errors.
use game_network.Prelude.{◌≡◌, ◌⊎◌, inl, inr, refl}
use game_network.Std.{
  ErrorKind, IoError, not_found, connection_reset, would_block, invalid_input, invalid_data,
  write_zero, interrupted, other, unexpected_eof,
}
use game_network.Msg.{CommError, warning, dropped, Warning, Dropped, from_kind, from}

module _ {E : Type 0} where
  abbrev Kept : CommError E → IoError → Type 0
  Kept c e = (c ≡ warning (Warning.io_failure e)) ⊎ (c ≡ dropped (Dropped.io_failure e))

  from_kind-Kept : (kind : ErrorKind) (e : IoError) → Kept (from_kind kind e) e
  unfolding from_kind
  from_kind-Kept not_found e = inl refl
  from_kind-Kept connection_reset e = inl refl
  from_kind-Kept would_block e = inl refl
  from_kind-Kept invalid_input e = inl refl
  from_kind-Kept invalid_data e = inl refl
  from_kind-Kept write_zero e = inl refl
  from_kind-Kept interrupted e = inl refl
  from_kind-Kept other e = inl refl
  from_kind-Kept unexpected_eof e = inl refl
  from_kind-Kept _ e = inr refl

  -- An I/O error becomes a warning or a drop that carries it, never an exit.
  pub from-cases : (e : IoError) → Kept (from e) e
  unfolding from
  from-cases e = from_kind-Kept e.kind e

-- ===== src/Domain/RoundTrip.antt =====
-- Operation in the JSON of a dead-letter entry: MarshalJSON writes String(), UnmarshalJSON reads it.
use gtc.Base.{◌≡◌, refl, ◌⊎◌, inl, inr, ℕ}
use gtc.Domain.Event.{
  Operation, insert, update, delete, truncate, read, other, to_string, of_string,
}

-- An operation that was written is read back as itself, except that a value outside of the constants is
-- read back as an insert.
pub of_string-to_string :
    (o : Operation)
    → (of_string (to_string o) ≡ o) ⊎ ((n : ℕ) × (o ≡ other n) × (of_string (to_string o) ≡ insert))
unfolding of_string to_string
of_string-to_string insert = inl refl
of_string-to_string update = inl refl
of_string-to_string delete = inl refl
of_string-to_string truncate = inl refl
of_string-to_string read = inl refl
of_string-to_string (other n) = inr (n, refl, refl)

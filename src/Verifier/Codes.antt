-- ===== src/Verifier/Codes.antt =====
-- crates/verifier/src/lib.rs and crates/evm/src/db.rs: the bytecodes of a witness, put into a map by the
-- verifier and read from it by the database.
use zk_ress.Base.{
  ℕ, ◌≡◌, ◌≢◌, ◌⊎◌, inl, inr, refl, List, [], ◌∷◌, some, Bool-cases, arith, ◌==◌, All,
}
use zk_ress.Base.Maps.{Map, lookup, insert, lookup-insert}
use zk_ress.Env.{ok, err}
use zk_ress.Evm.{WitnessDatabase, code_by_hash}
use zk_ress.Reth.{Reth}
use zk_ress.Verifier.{bytecode_map}

-- A predicate on one of the entries.
abbrev pub AnyOf {ℓ} : {A : Type ℓ} → (A → Type 0) → List A → Type 0
AnyOf P [] = ⊥
AnyOf P (x ∷ xs) = P x ⊎ AnyOf P xs

module _ {Body Error : Type 0} (reth : Reth Body Error) where
  -- What the map has under a hash: a bytecode of the list with that hash, or what it had before if no
  -- bytecode of the list has it.
  abbrev Filled : List reth.Bytes → Map reth.Bytecode → ℕ → Type 0
  Filled codes before h =
      ((code : reth.Bytecode) × (lookup h (bytecode_map reth codes before) ≡ some code)
        × (reth.hash_slow code ≡ h)
        × AnyOf (λ bytes. reth.new_raw bytes ≡ code) codes)
      ⊎ ((lookup h (bytecode_map reth codes before) ≡ lookup h before)
          × All (λ bytes. reth.hash_slow (reth.new_raw bytes) ≢ h) codes)

  bytecode_map_lem :
      (codes : List reth.Bytes) (before : Map reth.Bytecode) (h : ℕ) → Filled codes before h
  unfolding bytecode_map
  bytecode_map_lem [] before h = inr (refl, tt)
  bytecode_map_lem (bytes ∷ rest) before h =
      let code = reth.new_raw bytes in
      let inserted = lookup-insert (reth.hash_slow code) h code before in
      elim (bytecode_map_lem rest (insert (reth.hash_slow code) code before) h) [
        | inl (other, found, has_hash, listed) ↦ inl (other, found, has_hash, inr listed)
        | inr (kept, absent) ↦ elim (Bool-cases (reth.hash_slow code == h)) [
          | inl same ↦ inl (code, ground arith, ground arith, inl refl)
          | inr differs ↦ inr (ground arith, (ground arith, absent))
        ]
      ]

  -- With the map that the verifier builds from the bytecodes of a witness, code_by_hash returns
  -- for a hash a bytecode of the witness that has this hash, and if the witness has none it
  -- reports the hash as not found.
  pub code_by_hash_lem :
      (codes : List reth.Bytes) (db : WitnessDatabase reth) (h : ℕ)
      → db.bytecodes ≡ bytecode_map reth codes []
      → ((code : reth.Bytecode) × (code_by_hash reth db h ≡ ok code)
          × (reth.hash_slow code ≡ h)
          × AnyOf (λ bytes. reth.new_raw bytes ≡ code) codes)
        ⊎ ((code_by_hash reth db h ≡ err (reth.bytecode_not_found h))
            × All (λ bytes. reth.hash_slow (reth.new_raw bytes) ≢ h) codes)
  unfolding code_by_hash lookup
  code_by_hash_lem codes db h built = elim (bytecode_map_lem codes [] h) [
    | inl (code, found, has_hash, listed) ↦
        inl (code, rw (built, code_by_hash, found) refl, has_hash, listed)
    | inr (kept, absent) ↦ inr (rw (built, code_by_hash, kept) refl, absent)
  ]

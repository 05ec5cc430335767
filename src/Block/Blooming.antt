-- ===== src/Block/Blooming.antt =====
-- BloomNow, Verify and the hashes of block.go and block_bloom.go.
use go_pandora_pay.Prelude.{
  ℕ, ◌≡◌, ◌≤◌, ◌<◌, refl, true, false, List, length, All, Option, none, some, ◌⊎◌, inl, inr, arith,
  ◌==◌, not, if◌then◌else◌,
}
use go_pandora_pay.Prelude.Result.{Result, ok, err, panic}
use go_pandora_pay.Buffers.{hash_size, bytes, new_buffer_writer}
use go_pandora_pay.Kernel.{staking_amount_zero, compute_kernel_hash}
use go_pandora_pay.Kernel.Bounds.{Byte, compute_kernel_hash_exact}
use go_pandora_pay.Block.{
  Block, BlockBloom, BlockError, invalid_block, kernel_error, new_bloom, validate,
  serialize_manual_to_bytes, advanced_serialization, kernel_hash_of, bloom_hash, bloom_kernel,
  bloom_now, bloom_serialized_now, verify_if_bloomed, verify,
}
use native.Mathlib.Decide.{dec_lt}

module _ (sha3 : List ℕ → List ℕ) where
  -- What a bloom says that it has is that of the block.
  pub record IsBloom (blk : Block) (bloom : BlockBloom) : Type 0 where
    pub serialized : bloom.bloomed_hash ≡ true → bloom.serialized ≡ serialize_manual_to_bytes blk
    pub hash : bloom.bloomed_hash ≡ true → bloom.hash ≡ sha3 (serialize_manual_to_bytes blk)
    pub kernel_hash : bloom.bloomed_kernel_hash ≡ true → bloom.kernel_hash ≡ kernel_hash_of sha3 blk
    pub staked :
        bloom.bloomed_kernel_hash ≡ true
        → compute_kernel_hash (kernel_hash_of sha3 blk) blk.staking_amount
          ≡ ok bloom.kernel_hash_staked

  abbrev pub IsConsistent : Block → Type 0
  IsConsistent blk = (bloom : BlockBloom) → blk.bloom ≡ some bloom → IsBloom blk bloom

  new_bloom-IsBloom : (blk : Block) → IsBloom blk new_bloom
  new_bloom-IsBloom blk = record {
    serialized = λ h. cc;
    hash = λ h. cc;
    kernel_hash = λ h. cc;
    staked = λ h. cc;
  }

  bloom_hash-IsBloom :
      (blk : Block) (bloom : BlockBloom)
      → IsBloom blk bloom
      → IsBloom blk (bloom_hash sha3 blk bloom) × ((bloom_hash sha3 blk bloom).bloomed_hash ≡ true)
  unfolding bloom_hash
  bloom_hash-IsBloom blk bloom v = ground arith

  bloom_kernel-IsBloom :
      (blk : Block) (bloom : BlockBloom)
      → IsBloom blk bloom
      → IsBloom blk (bloom_kernel sha3 blk bloom).1
        × ((bloom_kernel sha3 blk bloom).1.bloomed_hash ≡ bloom.bloomed_hash)
        × ((bloom_kernel sha3 blk bloom).0 ≡ ok tt
            → (bloom_kernel sha3 blk bloom).1.bloomed_kernel_hash ≡ true)
  unfolding bloom_kernel
  bloom_kernel-IsBloom blk bloom v = ground arith

  -- The bloom is no part of what it says.
  IsBloom-over :
      (blk : Block) (bloom : BlockBloom) (before : Option BlockBloom)
      → IsBloom blk bloom
      → IsBloom (record blk { bloom = before }) bloom
  unfolding serialize_manual_to_bytes kernel_hash_of advanced_serialization
  IsBloom-over blk bloom before v = record {
    serialized = v.serialized;
    hash = v.hash;
    kernel_hash = v.kernel_hash;
    staked = v.staked;
  }

  some_eq : {a b : BlockBloom} → some a ≡ some b → a ≡ b
  some_eq e = cc

  -- With the bloom that BloomNow starts from.
  abbrev started : Block → BlockBloom
  started blk = elim blk.bloom [ none ↦ new_bloom | some bloom ↦ bloom ]

  started-IsBloom : (blk : Block) → IsConsistent blk → IsBloom blk (started blk)
  started-IsBloom blk v = go blk.bloom v
    where
      go :
          (o : Option BlockBloom)
          → ((bloom : BlockBloom) → o ≡ some bloom → IsBloom blk bloom)
          → IsBloom blk (elim o [ none ↦ new_bloom | some bloom ↦ bloom ])
      go none v = new_bloom-IsBloom blk
      go (some bloom) v = v bloom refl

  abbrev settled : Block → Result BlockError (Unit {0}) × BlockBloom
  settled blk = bloom_kernel sha3 blk (bloom_hash sha3 blk (started blk))

  settled-IsBloom :
      (blk : Block)
      → IsConsistent blk
      → IsBloom blk (settled blk).1
        × ((settled blk).0 ≡ ok tt → verify_if_bloomed (settled blk).1 ≡ ok tt)
  unfolding verify_if_bloomed
  settled-IsBloom blk v =
      let (hashed, done) = bloom_hash-IsBloom blk (started blk) (started-IsBloom blk v) in
      let (kernel, kept, staked) =
        bloom_kernel-IsBloom blk (bloom_hash sha3 blk (started blk)) hashed in
      (kernel, λ went. ground (arith, staked went))

  -- BloomNow keeps the bloom true of the block, whatever its outcome; where it goes through, Verify
  -- passes the block.
  pub bloom_now-IsConsistent :
      (blk : Block)
      → IsConsistent blk
      → IsConsistent (bloom_now sha3 blk).1
        × ((bloom_now sha3 blk).0 ≡ ok tt → verify (bloom_now sha3 blk).1 ≡ ok tt)
  unfolding bloom_now verify
  bloom_now-IsConsistent blk v = go (validate blk)
    where
      go :
          (valid : Result BlockError (Unit {0}))
          → let after : Result BlockError (Unit {0}) × Block = elim valid [
            | ok _ ↦ ((settled blk).0, record blk { bloom = some (settled blk).1 })
            | err e ↦ (err e, blk)
            | panic ↦ (panic, blk)
          ] in
            IsConsistent after.1
            × (after.0 ≡ ok tt
                → elim after.1.bloom [ none ↦ panic | some bloom ↦ verify_if_bloomed bloom ]
                  ≡ ok tt)
      go (ok _) = (
        λ bloom e.
            rw (← some_eq e)
              (IsBloom-over blk (settled blk).1 (some (settled blk).1) (settled-IsBloom blk v).0),
        (settled-IsBloom blk v).1,
      )
      go (err e) = (v, λ h. cc)
      go panic = (v, λ h. cc)

  -- What Deserialize keeps of a block is true of it.
  pub bloom_serialized_now-IsConsistent :
      (blk : Block) → IsConsistent (bloom_serialized_now sha3 (serialize_manual_to_bytes blk) blk)
  unfolding bloom_serialized_now
  bloom_serialized_now-IsConsistent blk bloom e =
      let kept : BlockBloom = record new_bloom {
        serialized = serialize_manual_to_bytes blk;
        hash = sha3 (serialize_manual_to_bytes blk);
        bloomed_hash = true;
      } in
      rw (← some_eq e) (
        IsBloom-over blk kept (some kept) (record {
          serialized = λ h. refl;
          hash = λ h. refl;
          kernel_hash = λ h. cc;
          staked = λ h. cc;
        }))

  -- The kernel hash with the stake is refused for a stake of zero alone.
  kernel_outcome :
      (hash : List ℕ) (staking_amount : ℕ)
      → All Byte hash
      → length hash ≤ hash_size
      → ((staking_amount ≡ 0) × (compute_kernel_hash hash staking_amount ≡ err staking_amount_zero))
        ⊎ ((0 < staking_amount)
            × ((out : List ℕ) × (compute_kernel_hash hash staking_amount ≡ ok out)))
  unfolding compute_kernel_hash
  kernel_outcome hash staking_amount byte size = elim (dec_lt 0 staking_amount) [
    | yes pos ↦
        let (out, e, _, _) = compute_kernel_hash_exact hash byte size staking_amount pos in
        inr (pos, (out, e))
    | no none_staked ↦ inl (omega arith, ground arith)
  ]

  outcome :
      (blk : Block)
      → blk.bloom ≡ none
      → ((blk.staking_amount ≡ 0)
          × (compute_kernel_hash (kernel_hash_of sha3 blk) blk.staking_amount
              ≡ err staking_amount_zero))
        ⊎ ((0 < blk.staking_amount)
            × ((out : List ℕ) × (compute_kernel_hash (kernel_hash_of sha3 blk) blk.staking_amount
                  ≡ ok out)))
      → (bloom_now sha3 blk).0 ≡ (
          if not (blk.header.version == 0)
          then err invalid_block
          else if blk.staking_amount == 0
          then err (kernel_error staking_amount_zero)
          else ok tt)
  unfolding bloom_now validate bloom_hash bloom_kernel
  outcome blk bare (inl (zero_stake, e)) = ground arith
  outcome blk bare (inr (pos, (out, e))) = ground arith

  -- The outcome of BloomNow on a block with no bloom, for a hash function that gives 32 bytes: the
  -- error of Validate if the version is not 0, else the error of ComputeKernelHash if the staking
  -- amount is 0; else it goes through, and Verify passes the block.
  pub bloom_now_outcome :
      (blk : Block)
      → ((bs : List ℕ) → All Byte (sha3 bs) × (length (sha3 bs) ≤ hash_size))
      → blk.bloom ≡ none
      → ((bloom_now sha3 blk).0 ≡ (
          if not (blk.header.version == 0)
          then err invalid_block
          else if blk.staking_amount == 0
          then err (kernel_error staking_amount_zero)
          else ok tt))
        × IsConsistent (bloom_now sha3 blk).1
        × ((bloom_now sha3 blk).0 ≡ ok tt → verify (bloom_now sha3 blk).1 ≡ ok tt)
  unfolding kernel_hash_of
  bloom_now_outcome blk hashes bare =
      let (byte, size) = hashes (bytes (advanced_serialization blk true false new_buffer_writer)) in
      let (kept, verified) = bloom_now-IsConsistent blk (λ bloom e. cc) in
      let kernel = kernel_outcome (kernel_hash_of sha3 blk) blk.staking_amount byte size in
      (outcome blk bare kernel, kept, verified)

-- ===== src/BlockComplete/Fees.antt =====
-- ComputeFees of block_complete.go.
use go_pandora_pay.Prelude.{
  ℕ, ◌+◌, ◌^◌, ◌≡◌, false, List, [], ◌∷◌, All, ltb, inl, inr, if◌then◌else◌, arith,
}
use go_pandora_pay.Prelude.Result.{ok, err}
use go_pandora_pay.SafeMath.{IsU64, would_exceed}
use go_pandora_pay.SafeMath.Laws.{safe_uint64_add_exact}
use go_pandora_pay.Transaction.{Transaction}
use go_pandora_pay.Transaction.Base.{TransactionBaseInterface}
use go_pandora_pay.BlockComplete.{BlockComplete, math_error, compute_fee, add_fees, compute_fees}

module _ {Z : Type 0} (interface : TransactionBaseInterface Z) (sha3 : List ℕ → List ℕ) where
  -- A transaction whose ComputeFee goes through.
  pub record HasFee (tx : Transaction Z) : Type 0 where
    pub fee : ℕ
    pub computed : compute_fee interface sha3 tx.base ≡ ok fee
    pub small : IsU64 fee

  unfoldable pub total : (txs : List (Transaction Z)) → All HasFee txs → ℕ
  total [] h = 0
  total (tx ∷ txs) (h, hs) = h.fee + total txs hs

  add_fees_exact :
      (acc : ℕ) (txs : List (Transaction Z)) (h : All HasFee txs)
      → IsU64 acc
      → add_fees interface sha3 acc txs ≡ (
          if ltb (acc + total txs h) (2 ^ 64)
          then ok (acc + total txs h)
          else err (math_error would_exceed))
  unfolding add_fees total
  add_fees_exact acc [] h small = ground arith
  add_fees_exact acc (tx ∷ txs) (h, hs) small =
      rw h.computed (elim (safe_uint64_add_exact acc h.fee small h.small) [
        | inl (fits, sum) ↦
            let same : acc + h.fee + total txs hs ≡ acc + (h.fee + total txs hs) = omega arith in
            rw sum (rw same at (add_fees_exact (acc + h.fee) txs hs fits))
        | inr (over, exceeds) ↦
            let big : ltb (acc + (h.fee + total txs hs)) (2 ^ 64) ≡ false = ground arith in
            rw (exceeds, big)
      ])

  -- ComputeFees of a complete block whose transactions have fees gives their sum if that is a uint64,
  -- and the error of SafeUint64Add if it is not.
  pub compute_fees_exact :
      (blk : BlockComplete Z) (h : All HasFee blk.txs)
      → compute_fees interface sha3 blk ≡ (
          if ltb (total blk.txs h) (2 ^ 64)
          then ok (total blk.txs h)
          else err (math_error would_exceed))
  unfolding compute_fees
  compute_fees_exact blk h =
      let whole : 0 + total blk.txs h ≡ total blk.txs h = omega arith in
      rw whole at (add_fees_exact 0 blk.txs h (omega arith))

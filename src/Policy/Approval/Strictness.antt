-- ===== src/Policy/Approval/Strictness.antt =====
-- The mode in force is the strictest of three: the policy's, the caller's, and what the scopes ask.
use fornix.Base.{ℕ, max, ◌≡◌, ◌≢◌, refl, String, Bool, true, false, List, ok, err, arith}
use fornix.Policy.Types.{
  ApprovalMode, blank, automatic, required, denied, other, PolicyApprovalConfig, unsupported_mode,
  parse_mode,
}
use fornix.Policy.Approval.{combine_modes, effective_approval, approval_required_for, policy_mode}

-- Automatic, then required, then denied. A blank mode asks for nothing.
abbrev pub rank : ApprovalMode → ℕ
rank blank = 0
rank automatic = 0
rank required = 1
rank denied = 2
rank (other _) = 0

abbrev pub need_rank : Bool → ℕ
need_rank true = 1
need_rank false = 0

abbrev pub IsSupported : ApprovalMode → Type 0
IsSupported (other _) = ⊥
IsSupported mode = Unit {0}

combine_modes-rank :
    (policy requested : ApprovalMode) (need : Bool)
    → IsSupported policy
    → policy ≢ blank
    → IsSupported requested
    → (e : ApprovalMode) × (combine_modes policy requested need ≡ ok e)
      × (rank e ≡ max (rank policy) (max (rank requested) (need_rank need)))
unfolding combine_modes
combine_modes-rank blank requested need p n r = absurd (n refl)
combine_modes-rank (other _) requested need p n r = absurd p
combine_modes-rank policy (other _) need p n r = absurd r
combine_modes-rank automatic blank true p n r = (required, refl, refl)
combine_modes-rank automatic blank false p n r = (automatic, refl, refl)
combine_modes-rank automatic automatic true p n r = (required, refl, refl)
combine_modes-rank automatic automatic false p n r = (automatic, refl, refl)
combine_modes-rank automatic required true p n r = (required, refl, refl)
combine_modes-rank automatic required false p n r = (required, refl, refl)
combine_modes-rank required blank true p n r = (required, refl, refl)
combine_modes-rank required blank false p n r = (required, refl, refl)
combine_modes-rank required automatic true p n r = (required, refl, refl)
combine_modes-rank required automatic false p n r = (required, refl, refl)
combine_modes-rank required required true p n r = (required, refl, refl)
combine_modes-rank required required false p n r = (required, refl, refl)
combine_modes-rank policy requested true p n r = (denied, ground arith, ground arith)
combine_modes-rank policy requested false p n r = (denied, ground arith, ground arith)

policy_mode-IsSupported :
    (m : ApprovalMode) → IsSupported m → IsSupported (policy_mode m) × (policy_mode m ≢ blank)
policy_mode-IsSupported blank s = (tt, λ e. cc)
policy_mode-IsSupported automatic s = (tt, λ e. cc)
policy_mode-IsSupported required s = (tt, λ e. cc)
policy_mode-IsSupported denied s = (tt, λ e. cc)
policy_mode-IsSupported (other _) s = absurd s

-- For supported modes there is always a mode in force, and it is exactly the strictest of the
-- policy's (blank counting as required), the caller's, and `required` where a scope of the policy
-- asks for approval.
pub effective_approval-rank :
    (config : PolicyApprovalConfig) (requested operation : String) (types : List String)
    → IsSupported (parse_mode config.mode)
    → IsSupported (parse_mode requested)
    → (e : ApprovalMode) × (effective_approval config requested operation types ≡ ok e)
      × (rank e
          ≡ max (rank (policy_mode (parse_mode config.mode))) (
              max
                (rank (parse_mode requested))
                (need_rank (approval_required_for config.require_for operation types))))
unfolding effective_approval
effective_approval-rank config requested operation types s r =
    let (s', n) = policy_mode-IsSupported (parse_mode config.mode) s in
    combine_modes-rank _ _ (approval_required_for config.require_for operation types) s' n r

-- A mode of the caller's that is none of the four is refused, whatever the policy.
combine_modes_unsupported :
    (policy : ApprovalMode) (mode : String) (need : Bool)
    → combine_modes policy (other mode) need ≡ err unsupported_mode
unfolding combine_modes
combine_modes_unsupported policy mode need = refl

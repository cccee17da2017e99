-- ===== src/Stm/Tm/Decision.antt =====
-- The decisions of a TM, its PLms `Committed` and `Aborted`, under one leadership.
use r_universal_db.Base.{
  ℕ, ◌+◌, ◌≤◌, Bool, true, false, List, [], ◌∷◌, ◌++◌, Ord, ◌==◌, ◌≡◌, refl, arith, Bool-cases, inl,
  inr, ok, >>=-ok, unwrap,
}
use r_universal_db.BTreeMap.{BTreeMap, get}
use r_universal_db.Stm.{TmPayloadTypes, committed_plm, aborted_plm, RmMessage}
use r_universal_db.Stm.Tm.{
  State, start, waiting_insert_tm_prepared, insert_tm_preparing, preparing, TmEffect, push_plm,
  send_all,
}
use r_universal_db.Stm.Tm.Leader.{resend}
use r_universal_db.Stm.Tm.Calls.{TmCall, own_leader_changed}

-- The `Committed` PLms that are pushed, and the decisions.
unfoldable pub commits : {T : TmPayloadTypes} → List (TmEffect T) → ℕ
commits [] = 0
commits (push_plm (committed_plm query_id plm) ∷ effects) = 1 + commits effects
commits (effect ∷ effects) = commits effects

unfoldable pub decisions : {T : TmPayloadTypes} → List (TmEffect T) → ℕ
decisions [] = 0
decisions (push_plm (committed_plm query_id plm) ∷ effects) = 1 + decisions effects
decisions (push_plm (aborted_plm query_id plm) ∷ effects) = 1 + decisions effects
decisions (effect ∷ effects) = decisions effects

pub commits-le-decisions :
    {T : TmPayloadTypes} (effects : List (TmEffect T)) → commits effects ≤ decisions effects
unfolding commits decisions
commits-le-decisions [] = ground arith
commits-le-decisions (e ∷ effects) = ground (arith, commits-le-decisions effects)

pub commits-append :
    {T : TmPayloadTypes} (xs ys : List (TmEffect T)) → commits (xs ++ ys) ≡ commits xs + commits ys
unfolding commits
commits-append [] ys = ground arith
commits-append (x ∷ xs) ys = ground (arith, commits-append xs ys)

pub decisions-append :
    {T : TmPayloadTypes} (xs ys : List (TmEffect T))
    → decisions (xs ++ ys) ≡ decisions xs + decisions ys
unfolding decisions
decisions-append [] ys = ground arith
decisions-append (x ∷ xs) ys = ground (arith, decisions-append xs ys)

pub decisions-send_all :
    {T : TmPayloadTypes} {P : Type 0} (mk : P → RmMessage T) (payloads : BTreeMap T.RmPath P)
    → decisions (send_all mk payloads) ≡ 0
unfolding decisions send_all
decisions-send_all mk [] = refl
decisions-send_all mk ((rm, p) ∷ payloads) = decisions-send_all mk payloads

pub decisions-resend :
    {T : TmPayloadTypes} {P : Type 0} ⦃o : Ord T.RmPath⦄ ⦃g : Ord T.GroupId⦄ (mk : P → RmMessage T)
    (payloads : BTreeMap T.RmPath P) (gid : T.GroupId) (rms : List T.RmPath)
    (effects : List (TmEffect T))
    → resend mk payloads gid rms ≡ ok effects
    → decisions effects ≡ 0
unfolding decisions resend
decisions-resend mk payloads gid [] effects h = ground (arith, h)
decisions-resend {T} mk payloads gid (rm ∷ rms) effects h = elim (Bool-cases (T.to_gid rm == gid)) [
  | inl t ↦
      let (p, e, k) = >>=-ok (unwrap (get rm payloads)) _ effects (rw t at h) in
      let (rest, e', k') = >>=-ok (resend mk payloads gid rms) _ effects k in
      ground (arith, k', decisions-resend mk payloads gid rms rest e')
  | inr f ↦ decisions-resend mk payloads gid rms effects (rw f at h)
]

-- How many decisions may be pushed from a state on, before the leader changes.
abbrev pub left : {T : TmPayloadTypes} → State T → ℕ
left start = 1
left waiting_insert_tm_prepared = 1
left insert_tm_preparing = 1
left (preparing rms replies) = 1
left _ = 0

abbrev pub is_steady : {T : TmPayloadTypes} → TmCall T → Bool
is_steady (own_leader_changed is_leader) = false
is_steady _ = true

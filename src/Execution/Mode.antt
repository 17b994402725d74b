-- ===== src/Execution/Mode.antt =====
-- The gates of the permission ladder.
use curator_agent_launcher.Execution.{
  global_choice, profile_choice, Permissions, transport_unsupported, denied, profile_locked,
  is_text, locked_decision, transported, choice, granted, PermissionDecision, PermissionRequest,
  resolve_permission,
}
use curator_agent_launcher.Base.{
  sym, refl, subst, none, some, Option, inr, not, ◌&&◌, inl, Bytes, arith, ◌⊎◌, Bool-cases, Bool,
  bytes_eq, codes, false, true, ◌≡◌,
}

locked_decision-native :
    (req : PermissionRequest) (d : PermissionDecision)
    → locked_decision req ≡ granted d
    → d.mode ≡ codes "native"
unfolding locked_decision
locked_decision-native req d e = ground arith

native_is_not_yolo : {m : Bytes} → m ≡ codes "native" → is_text m "yolo" ≡ true → ⊥
unfolding bytes_eq
native_is_not_yolo h y = cc (rw h at y)

transported-choice :
    (transport : Bool) (c d : PermissionDecision)
    → transported transport c ≡ granted d
    → (c ≡ d) × ((is_text c.mode "yolo" && not transport) ≡ false)
transported-choice transport c d e = elim (Bool-cases (is_text c.mode "yolo" && not transport)) [
  | inl gated ↦ cc (rw gated at e)
  | inr free ↦ (cc (rw free at e), free)
]

-- Yolo is granted only over a transport and never under the force-native lock, whatever asked for it.
pub resolve_permission-yolo :
    (req : PermissionRequest) (d : PermissionDecision)
    → resolve_permission req ≡ granted d
    → is_text d.mode "yolo" ≡ true
    → (req.transport ≡ true) × (profile_locked req.profile ≡ false)
unfolding resolve_permission
resolve_permission-yolo req d e y = elim (Bool-cases (profile_locked req.profile)) [
  | inl locked ↦ absurd (native_is_not_yolo (locked_decision-native req d (rw locked at e)) y)
  | inr free ↦
      let e' = rw free at e in
      let same = transported-choice req.transport (choice req) d e' in ground arith
]

-- The profile sets no permission mode of its own.
abbrev pub IsSilent : Option Permissions → Type 0
IsSilent none = Unit
IsSilent (some p) = is_text p.source "profile" ≡ false

-- What an unlocked request asks for: the flag before the profile's own setting, that before the global
-- default, and yolo if there is none of them.
pub data Preferred (req : PermissionRequest) : PermissionDecision → Type 0 where
  flagged : {m : Bytes} → req.flag ≡ some m → Preferred req (record { mode = m; source = "flag" })
  profiled :
      {p : Permissions}
      → req.flag ≡ none
      → req.profile ≡ some p
      → is_text p.source "profile" ≡ true
      → Preferred req (record { mode = p.mode; source = "profile" })
  defaulted :
      {m : Bytes}
      → req.flag ≡ none
      → IsSilent req.profile
      → req.global ≡ some m
      → Preferred req (record { mode = m; source = "global" })
  unasked :
      req.flag ≡ none
      → IsSilent req.profile
      → req.global ≡ none
      → Preferred req (record { mode = codes "yolo"; source = "default-interactive" })

global_choice-Preferred :
    (req : PermissionRequest) (global : Option Bytes)
    → req.flag ≡ none
    → IsSilent req.profile
    → req.global ≡ global
    → Preferred req (global_choice global)
global_choice-Preferred req (some m) f s e = defaulted f s e
global_choice-Preferred req none f s e = unasked f s e

profile_choice-Preferred :
    (req : PermissionRequest) (profile : Option Permissions)
    → req.flag ≡ none
    → req.profile ≡ profile
    → Preferred req (profile_choice profile req.global)
profile_choice-Preferred req none f e =
    global_choice-Preferred req req.global f (subst IsSilent (sym e) tt) refl
profile_choice-Preferred req (some p) f e = elim (Bool-cases (is_text p.source "profile")) [
  | inl own ↦ rw own (profiled f e own)
  | inr other ↦
      rw other (global_choice-Preferred req req.global f (subst IsSilent (sym e) other) refl)
]

choice-Preferred : (req : PermissionRequest) → Preferred req (choice req)
unfolding choice
choice-Preferred req = of_flag req.flag refl
  where
    of_flag :
        (o : Option Bytes)
        → req.flag ≡ o
        → Preferred req (elim o [
          | some m ↦ record { mode = m; source = "flag" }
          | none ↦ profile_choice req.profile req.global
        ])
    of_flag (some m) e = flagged e
    of_flag none e = profile_choice-Preferred req req.profile e refl

-- An unlocked request is granted what it asks for by the order of the ladder, with the source of that
-- rung; it is denied only if that is yolo and there is no transport, and then always.
pub resolve_permission-unlocked :
    (req : PermissionRequest)
    → profile_locked req.profile ≡ false
    → (d : PermissionDecision) × Preferred req d
      × (((resolve_permission req ≡ granted d)
            × ((is_text d.mode "yolo" && not req.transport) ≡ false))
          ⊎ ((resolve_permission req ≡ denied transport_unsupported)
              × (is_text d.mode "yolo" ≡ true)
              × (req.transport ≡ false)))
unfolding resolve_permission
resolve_permission-unlocked req free = (
  choice req,
  choice-Preferred req,
  elim (Bool-cases (is_text (choice req).mode "yolo" && not req.transport)) [
    | inl gated ↦ inr (rw (free, gated), ground arith, ground arith)
    | inr open_way ↦ inl (rw (free, open_way), open_way)
  ],
)

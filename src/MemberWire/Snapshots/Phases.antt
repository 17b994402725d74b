-- ===== src/MemberWire/Snapshots/Phases.antt =====
-- What every phase of a snapshot has in common.
use curator_agent_launcher.Base.{
  bytes_eq, bytes_eq-eq, true, false, not, ◌||◌, ◌≡◌, refl, [], ◌∷◌, String, Bytes, Bool-cases, inl,
  inr, arith, codes, is_text, subst, sym,
}
use curator_agent_launcher.MemberWire.Json.{Value, Members, string}
use curator_agent_launcher.MemberWire.Shapes.{at, is_nil, equals, one_of}
use curator_agent_launcher.MemberWire.Decode.{UntrustedRecord, ok}
use curator_agent_launcher.MemberWire.Decode.Shaped.{decode_exact}
use curator_agent_launcher.MemberWire.Snapshots.{
  phase_valid, allocation_phase_valid, snapshot_valid, status_of, decode_snapshot, snapshot_limit,
}

-- A value equals one text only.
equals-apart :
    (v : Value) (a b : String)
    → is_text (codes a) b ≡ false
    → equals v a ≡ true
    → equals v b ≡ false
unfolding equals
equals-apart (string s) a b apart e =
    subst (λ x. is_text x b ≡ false) (sym (bytes_eq-eq s (codes a) e)) apart
equals-apart _ a b apart e = cc

phase_valid-result :
    (o : Members)
    → phase_valid o ≡ true
    → (is_nil (at o "result")
        || equals (at o "phase") "terminal"
        || equals (at o "phase") "uncertain")
      ≡ true
unfolding phase_valid allocation_phase_valid
phase_valid-result o e = ground arith

phase_valid-scope :
    (o : Members)
    → phase_valid o ≡ true
    → (not (is_nil (at o "scope"))
        || one_of
            (at o "phase")
            ("admitted" ∷ "allocating" ∷ "stopping" ∷ "terminal" ∷ "uncertain" ∷ []))
      ≡ true
unfolding phase_valid allocation_phase_valid one_of
phase_valid-scope o e = ground arith

phase_valid-running :
    (o : Members)
    → phase_valid o ≡ true
    → (not (equals (status_of o "native") "running")
        || one_of (at o "phase") ("running" ∷ "stopping" ∷ "uncertain" ∷ []))
      ≡ true
unfolding phase_valid allocation_phase_valid one_of bytes_eq
phase_valid-running o e = elim (Bool-cases (equals (status_of o "native") "running")) [
  | inr idle ↦ ground arith
  | inl busy ↦
      let not_started = equals-apart (status_of o "native") "running" "not_started" refl busy in
      let unknown = equals-apart (status_of o "native") "running" "unknown" refl busy in
      let exit = equals-apart (status_of o "native") "running" "exit" refl busy in
      let signal = equals-apart (status_of o "native") "running" "signal" refl busy in ground arith
]

snapshot_valid-phase : (o : Members) → snapshot_valid o ≡ true → phase_valid o ≡ true
unfolding snapshot_valid
snapshot_valid-phase o e = ground arith

-- In a snapshot that is accepted: a result stands only with the phases terminal and uncertain; without a
-- scope the phase is admitted, allocating, stopping, terminal or uncertain; and a process is running
-- only in the phases running, stopping and uncertain.
pub decode_snapshot-phases :
    (raw : Bytes) (r : UntrustedRecord)
    → decode_snapshot raw ≡ ok r
    → ((is_nil (at r.value "result")
          || equals (at r.value "phase") "terminal"
          || equals (at r.value "phase") "uncertain")
        ≡ true)
      × ((not (is_nil (at r.value "scope"))
            || one_of
                (at r.value "phase")
                ("admitted" ∷ "allocating" ∷ "stopping" ∷ "terminal" ∷ "uncertain" ∷ []))
          ≡ true)
      × ((not (equals (status_of r.value "native") "running")
            || one_of (at r.value "phase") ("running" ∷ "stopping" ∷ "uncertain" ∷ []))
          ≡ true)
unfolding decode_snapshot
decode_snapshot-phases raw r e =
    let shaped = (decode_exact raw snapshot_limit snapshot_valid r).0 e in
    let phase = snapshot_valid-phase r.value shaped.shape in
    (
      phase_valid-result r.value phase,
      phase_valid-scope r.value phase,
      phase_valid-running r.value phase,
    )

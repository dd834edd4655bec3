-- ===== src/Promote/Requests/Decided.antt =====
-- Every promotion request is decided once, and everybody is told the same decision.
use janus_secrets.Common.{
  ℕ, zero, suc, ◌+◌, ◌≤◌, ◌≡◌, refl, ◌⊎◌, inl, inr, List, [], ◌∷◌, arith, Bytes,
}
use janus_secrets.Promote.State.{Services}
use janus_secrets.Promote.Requests.{
  pending, World, Stage, approving, rejecting, cancelling, planning, committing, marking, approved,
  decided, conflict, failed, Caller, Answer, act, step_at, run,
}
use janus_secrets.Promote.Requests.Calls.{
  Made, told, deciders, decisions, Agrees, AllAgree, Real, Extends, act-told, act-log, act-final,
  act-Agrees,
}

Made-mono : (v : ℕ) (w w' : World) → Extends w w' → Made v w.promoted → Made v w'.promoted
Made-mono v w w' e (inl nothing) = inl nothing
Made-mono v w w' e (inr made) = inr (e.1 v made)

Agrees-mono :
    (w w' : World) (name : Bytes) (s : Stage) → Extends w w' → Agrees w name s → Agrees w' name s
Agrees-mono w w' name (approved r) e h = rw (e.0 (rw h.0 refl)) h
Agrees-mono w w' name (decided t) e h = rw (e.0 (rw h.1 h.0)) h
Agrees-mono w w' name (marking r) e h = Made-mono r.target_version w w' e h
Agrees-mono w w' name approving e h = tt
Agrees-mono w w' name rejecting e h = tt
Agrees-mono w w' name cancelling e h = tt
Agrees-mono w w' name (planning q) e h = tt
Agrees-mono w w' name (committing p) e h = tt
Agrees-mono w w' name (conflict r) e h = tt
Agrees-mono w w' name failed e h = tt

AllAgree-mono : (w w' : World) (cs : List Caller) → Extends w w' → AllAgree w cs → AllAgree w' cs
AllAgree-mono w w' [] e h = tt
AllAgree-mono w w' (c ∷ cs) e h =
    (Agrees-mono w w' c.name c.stage e h.0, AllAgree-mono w w' cs e h.1)

-- The callers and the row agree, with `k` more that were told of a decision elsewhere.
record Inv (k : ℕ) (w : World) (cs : List Caller) : Type 0 where
  pub few : deciders cs + k ≤ decisions w.request.status
  pub all : AllAgree w cs
  pub real : Real w

step_at-Extends :
    (sv : Services) (n : ℕ) (a : Answer) (w : World) (cs : List Caller)
    → Extends w (step_at sv n a w cs).0
unfolding step_at
step_at-Extends sv n a w [] = (λ h. refl, λ v h. h)
step_at-Extends sv zero a w (c ∷ cs) =
    (act-final sv c.name c.stage a w, act-log sv c.name c.stage a w)
step_at-Extends sv (suc n) a w (c ∷ cs) = step_at-Extends sv n a w cs

step_at-Inv :
    (sv : Services) (n : ℕ) (a : Answer) (w : World) (cs : List Caller) (k : ℕ)
    → Inv k w cs
    → Inv k (step_at sv n a w cs).0 (step_at sv n a w cs).1
unfolding step_at
step_at-Inv sv n a w [] k i = i
step_at-Inv sv zero a w (c ∷ cs) k i =
    let (agrees, real) = act-Agrees sv c.name c.stage a w i.all.0 i.real in
    record {
      few = omega (arith, act-told sv c.name c.stage a w (deciders cs + k) (omega (arith, i.few)));
      all = (
        agrees,
        AllAgree-mono w (act sv c.name c.stage a w).0 cs
            (act-final sv c.name c.stage a w, act-log sv c.name c.stage a w) i.all.1,
      );
      real = real;
    }
step_at-Inv sv (suc n) a w (c ∷ cs) k i =
    let j =
      step_at-Inv sv n a w cs (told c.stage + k)
        (record { few = omega (arith, i.few); all = i.all.1; real = i.real }) in
    record {
      few = omega (arith, j.few);
      all = (
        Agrees-mono w (step_at sv n a w cs).0 c.name c.stage (step_at-Extends sv n a w cs) i.all.0,
        j.all,
      );
      real = j.real;
    }

run-Inv :
    (sv : Services) (moves : List (ℕ × Answer)) (w : World) (cs : List Caller)
    → Inv 0 w cs
    → Inv 0 (run sv moves w cs).0 (run sv moves w cs).1
unfolding run
run-Inv sv [] w cs i = i
run-Inv sv (m ∷ moves) w cs i =
    let after = step_at sv m.0 m.1 w cs in
    run-Inv sv moves after.0 after.1 (step_at-Inv sv m.0 m.1 w cs 0 i)

abbrev pub IsBeginning : Stage → Type 0
IsBeginning s = (s ≡ approving) ⊎ ((s ≡ rejecting) ⊎ (s ≡ cancelling))

abbrev pub AllBegin : List Caller → Type 0
AllBegin [] = Unit
AllBegin (c ∷ cs) = IsBeginning c.stage × AllBegin cs

beginning : (w : World) (name : Bytes) (s : Stage) → IsBeginning s → (told s ≡ 0) × Agrees w name s
beginning w name s h = ground arith

AllBegin-Agrees : (w : World) (cs : List Caller) → AllBegin cs → (deciders cs ≡ 0) × AllAgree w cs
AllBegin-Agrees w [] h = (refl, tt)
AllBegin-Agrees w (c ∷ cs) h =
    let (none_told, agrees) = beginning w c.name c.stage h.0 in
    let (others_told, others) = AllBegin-Agrees w cs h.1 in
    (omega (arith, none_told, others_told), (agrees, others))

-- A promotion request is decided once: let any number of callers approve, reject or cancel a
-- pending request, their calls in any order, each of which may fail with or without an effect. Then
-- at most one caller is told that it decided, and none while the row is pending; the row names
-- that caller with the decision, and the version, that it was told; and a row that is applied names
-- a version that a promotion of this request has made, or version 0, which
-- `Apply` reports where there is nothing to change.
pub run-DecidedOnce :
    (sv : Services) (moves : List (ℕ × Answer)) (w : World) (cs : List Caller)
    → w.request.status ≡ pending
    → AllBegin cs
    → let after = run sv moves w cs in
      (deciders after.1 ≤ decisions after.0.request.status)
      × AllAgree after.0 after.1
      × Real after.0
run-DecidedOnce sv moves w cs undecided starts =
    let (none_told, agrees) = AllBegin-Agrees w cs starts in
    let i =
      run-Inv sv moves w cs (record {
        few = omega (arith, none_told);
        all = agrees;
        real = ground (arith, undecided);
      }) in
    (omega (arith, i.few), i.all, i.real)

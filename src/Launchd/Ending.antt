-- ===== src/Launchd/Ending.antt =====
-- Installing and removing agents ends: launchd unloads an agent within five seconds or its time is up.
use pazuzu.Base.{
  ℕ, zero, suc, ◌+◌, ◌*◌, ◌≤◌, ◌≡◌, refl, ℤ, Bool, true, false, not, Option, none, some, List, [],
  ◌∷◌, ◌++◌, Text, codes, arith, leb,
}
use pazuzu.Errors.{Kind, Result, ok, err}
use pazuzu.Exec.{Exec, pure, raise, raise_if, modify, ◌>>=◌, ◌>>◌}
use pazuzu.Exec.Ensures.{Ensures, Ensures-pure, Ensures-if, Ensures-bind, Ensures-gets-bind}
use pazuzu.Launchd.{Agent, Mac, launchctl, is_loaded, wait_until_unloaded, unload}
use pazuzu.Launchd.Services.{
  install, install_mcp, install_services, install_bridge, remove_bridge, uninstall,
  uninstall_services, added,
}

-- The clock does not go back while launchctl runs, and sleeping takes at least its time.
pub record IsClock {W : Type 0} (mac : Mac W) : Type 0 where
  pub runs :
      (arguments : List Text) (w : W)
      → mac.monotonic w ≤ mac.monotonic (mac.launchctl arguments w).1
  pub sleeps : (n : ℕ) (w : W) → mac.monotonic w + n ≤ mac.monotonic (mac.sleep n w)

-- The rounds that five seconds hold, and one more.
abbrev pub enough : ℕ
enough = 101

-- The wait was not cut off by its number of rounds.
abbrev IsEnded : Result Bool → Type 0
IsEnded (ok unloaded) = unloaded ≡ true
IsEnded (err e) = Unit

abbrev pub IsReturned : {A : Type 0} → Result (Option A) → Type 0
IsReturned (ok none) = ⊥
IsReturned (ok (some a)) = Unit
IsReturned (err e) = Unit

module _ {W : Type 0} (mac : Mac W) (clock : IsClock mac) where
  abbrev Reached : ℕ → W → Type 0
  Reached time w = time ≤ mac.monotonic w

  loaded_keeps :
      (time : ℕ) (label : Text)
      → Ensures (Reached time) (is_loaded mac label) (λ r w. Reached time w)
  unfolding is_loaded launchctl pure ◌>>=◌
  loaded_keeps time label = record {
    at = λ w h.
        ground (arith, clock.runs (codes "print" ∷ (mac.domain ++ (codes "/" ++ label)) ∷ []) w);
  }

  -- After the test of the deadline it has not passed.
  abbrev Passed : Bool → Result (Unit {0}) → Type 0
  Passed b (ok _) = b ≡ false
  Passed b (err e) = Unit

  raise_if-Passed :
      {P : W → Type 0} (b : Bool) (k : Kind) (t : Text)
      → Ensures P (raise_if b k t) (λ r w. P w × Passed b r)
  unfolding raise pure
  raise_if-Passed true k t = record { at = λ w h. (h, tt) }
  raise_if-Passed false k t = record { at = λ w h. (h, refl) }

  abbrev Open : ℕ → ℕ → ℕ → W → Type 0
  Open deadline time now w = (Reached time w × (mac.monotonic w ≡ now)) × (leb deadline now ≡ false)

  slept :
      (deadline time now : ℕ)
      → Ensures (Open deadline time now) (modify (mac.sleep 50)) (λ r w. Reached (time + 50) w)
  unfolding modify
  slept deadline time now = record { at = λ w h. omega (arith, clock.sleeps 50 w, h.0.0) }

  -- What follows a test of the deadline that it has not passed.
  abbrev Rest : ℕ → Text → ℕ → ℕ → Type 0
  Rest k label deadline time =
      (now : ℕ)
      → Ensures (Open deadline time now)
          (modify (mac.sleep 50) >> wait_until_unloaded mac k label deadline) (λ r w. IsEnded r)

  Ensures-round :
      (k : ℕ) (label : Text) (deadline time : ℕ)
      → Rest k label deadline time
      → Ensures (Reached time) (wait_until_unloaded mac (suc k) label deadline) (λ r w. IsEnded r)
  unfolding wait_until_unloaded
  Ensures-round k label deadline time rest =
      Ensures-bind (λ r w. Reached time w) _ _ (loaded_keeps time label)
        (λ loaded.
          Ensures-if (not loaded) _ _ (λ _. Ensures-pure true (λ w p. refl))
            (λ _. Ensures-gets-bind mac.monotonic _ (λ now.
              Ensures-bind
                (λ r w. (Reached time w × (mac.monotonic w ≡ now)) × Passed (leb deadline now) r) _
                _ (raise_if-Passed (leb deadline now) _ _) (λ _. rest now) (λ e w p. tt))))
        (λ e w p. tt)

  -- A round for each twentieth of a second up to the deadline, and one more, end the wait.
  Ensures-wait :
      (k : ℕ) (label : Text) (deadline time : ℕ)
      → deadline ≤ time + 50 * k
      → Ensures (Reached time) (wait_until_unloaded mac (suc k) label deadline) (λ r w. IsEnded r)
  Ensures-wait zero label deadline time h =
      Ensures-round zero label deadline time (λ now. record { at = λ w o. absurd (ground arith) })
  Ensures-wait (suc k) label deadline time h = Ensures-round (suc k) label deadline time (λ now.
      Ensures-bind (λ r w. Reached (time + 50) w) _ _ (slept deadline time now)
        (λ _. Ensures-wait k label deadline (time + 50) (omega arith)) (λ e w p. tt))

  abbrev Any : W → Type 0
  Any w = Unit

  unload-IsEnded : (label : Text) → Ensures Any (unload mac enough label) (λ r w. IsEnded r)
  unfolding unload launchctl
  unload-IsEnded label =
      Ensures-bind (λ r w. Unit {0}) _ _ (record { at = λ w p. tt })
        (λ _. Ensures-gets-bind mac.monotonic _ (λ now. record {
          at = λ w h.
              (Ensures-wait 100 label (now + 5_000) now (omega arith)).at w (omega (arith, h.1));
        }))
        (λ e w p. tt)

  -- An action that returns something, if it does not raise, whatever it is run in.
  abbrev Returns : {A : Type 0} → Exec W (Option A) → Type 0
  Returns action = Ensures Any action (λ r w. IsReturned r)

  Returns-after :
      {A B : Type 0} (first : Exec W A) (next : A → Exec W (Option B))
      → ((a : A) → Returns (next a))
      → Returns (first >>= next)
  Returns-after first next h =
      Ensures-bind (λ r w. Unit {0}) first next (record { at = λ w p. tt })
        (λ a. record { at = λ w p. (h a).at w tt }) (λ e w p. tt)

  Returns-some : {A : Type 0} (a : A) → Returns (pure (some a))
  Returns-some a = Ensures-pure (some a) (λ w p. tt)

  -- What unloads an agent first and goes on only then.
  Returns-unload :
      {B : Type 0} (label : Text) (next : Bool → Exec W (Option B))
      → Returns (next true)
      → Returns (unload mac enough label >>= next)
  Returns-unload label next h =
      Ensures-bind (λ r w. IsEnded r) _ next (unload-IsEnded label) go (λ e w p. tt)
    where
      go : (b : Bool) → Ensures (λ w. b ≡ true) (next b) (λ r w. IsReturned r)
      go true = record { at = λ w p. h.at w tt }
      go false = record { at = λ w p. absurd (cc p) }

  -- An action that returns, and one for what it returned.
  Returns-then :
      {A B : Type 0} (first : Exec W (Option A)) (next : Option A → Exec W (Option B))
      → Returns first
      → ((a : A) → Returns (next (some a)))
      → Returns (first >>= next)
  Returns-then {A} first next h hs =
      Ensures-bind (λ r w. IsReturned r) first next h go (λ e w p. tt)
    where
      go :
          (found : Option A)
          → Ensures (λ w. IsReturned (ok found)) (next found) (λ r w. IsReturned r)
      go (some a) = record { at = λ w p. (hs a).at w tt }
      go none = record { at = λ w p. absurd p }

  Returns-install : (content : Agent) → Returns (install mac enough content)
  unfolding install
  Returns-install content =
      Returns-after _ _
        (λ target. Returns-unload content.label _ (Returns-after _ _ (λ _. Returns-some target)))

  Returns-install_mcp :
      (first : Text) (mcp_port : Option ℤ) → Returns (install_mcp mac enough first mcp_port)
  unfolding install_mcp
  Returns-install_mcp first none = Returns-some _
  Returns-install_mcp first (some port) =
      Returns-after _ _ (λ program. Returns-then _ _ (Returns-install _) (λ second. Returns-some _))

  Returns-install_services :
      (host : Text) (mcp_port max_sessions : Option ℤ)
      → Returns (install_services mac enough host mcp_port max_sessions)
  unfolding install_services
  Returns-install_services host mcp_port max_sessions = Returns-after _ _ (λ _.
      Returns-after _ _ (λ program.
        Returns-then _ _ (Returns-install _) (λ first. Returns-install_mcp first mcp_port)))

  Returns-install_bridge :
      (name : Text) (command : List Text) (listen_host : Text) (listen_port : ℤ)
      (remote_host : Text) (remote_port : ℤ)
      → Returns
          (install_bridge mac enough name command listen_host listen_port remote_host remote_port)
  unfolding install_bridge
  Returns-install_bridge name command listen_host listen_port remote_host remote_port =
      Returns-after _ _ (λ found. Returns-after _ _ (λ host.
        Returns-after _ _
          (λ _. Returns-after _ _ (λ label. Returns-after _ _ (λ program. Returns-install _)))))

  Returns-remove_bridge : (name : Text) → Returns (remove_bridge mac enough name)
  unfolding remove_bridge
  Returns-remove_bridge name =
      Returns-after _ _
        (λ label. Returns-unload label _ (Returns-after _ _ (λ removed. Returns-some removed)))

  Returns-uninstall : (labels : List Text) → Returns (uninstall mac enough labels)
  unfolding uninstall
  Returns-uninstall [] = Returns-some []
  Returns-uninstall (label ∷ labels) = Returns-unload label _ (
      Returns-after _ _
        (λ removed. Returns-then _ _ (Returns-uninstall labels) (λ rest. gathered removed rest)))
    where
      gathered :
          (removed : Option Text) (rest : List Text) → Returns (pure (added removed (some rest)))
      gathered none rest = Returns-some rest
      gathered (some path) rest = Returns-some (path ∷ rest)

  Returns-uninstall_services : Returns (uninstall_services mac enough)
  unfolding uninstall_services
  Returns-uninstall_services = Returns-after _ _ (λ host. Returns-after _ _ (λ bridges.
      Returns-then _ _ (Returns-uninstall _)
        (λ paths. Returns-after _ _ (λ _. Returns-some paths))))

  -- Installing the services or a bridge, removing a bridge and uninstalling all end: with a round for
  -- each twentieth of a second of the five seconds that an agent has to unload, and one more, each
  -- of them returns or raises, however launchctl answers, if the clock counts what is slept and does
  -- not go back while launchctl runs.
  pub services_IsReturned :
      (host name : Text) (mcp_port max_sessions : Option ℤ) (command : List Text)
      (listen_host : Text) (listen_port : ℤ) (remote_host : Text) (remote_port : ℤ) (w : W)
      → IsReturned (install_services mac enough host mcp_port max_sessions w).0
        × IsReturned
            (install_bridge mac enough name command listen_host listen_port remote_host remote_port
              w).0
        × IsReturned (remove_bridge mac enough name w).0
        × IsReturned (uninstall_services mac enough w).0
  services_IsReturned host name mcp_port max_sessions command listen_host listen_port remote_host
        remote_port w =
      (
        (Returns-install_services host mcp_port max_sessions).at w tt,
        (Returns-install_bridge name command listen_host listen_port remote_host remote_port).at w
            tt,
        (Returns-remove_bridge name).at w tt,
        Returns-uninstall_services.at w tt,
      )

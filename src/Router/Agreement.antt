-- ===== src/Router/Agreement.antt =====
-- application/router-service.ts: the settings file, the session and the router after an update.
use world_wide_woo.Common.{
  String, ◌≡◌, refl, sym, ◌∙◌, subst, ◌⊎◌, true, false, Result, ok, err, Result-cases, inl, inr,
}
use world_wide_woo.Router.{
  Settings, Services, Router, RouterError, superseded, refused, not_rolled_back, failed,
  apply_observed, synchronize, give_way, roll_back, publish, update, normalize_settings,
}
use world_wide_woo.Router.Normalizing.{settings_value, IsOffered, settings_back}

-- What the services promise: a swap that succeeds found the expected settings and wrote the next
-- ones, normalized; the stored settings have a model that their provider offers; reading changes
-- nothing, and the session either takes the settings over or keeps its own. Neither touches the
-- other. No other process writes in between.
pub record Laws {S : Type 0} (services : Services S) (stored applied : S → Settings) : Type 0 where
  pub swapped :
      (e n : Settings) (s : S)
      → (services.compare_and_swap e n s).0 ≡ ok true
      → (stored (services.compare_and_swap e n s).1 ≡ normalize_settings (settings_value n))
        × (stored s ≡ e)
  pub offered : (s : S) → IsOffered (stored s)
  pub swap_aside :
      (e n : Settings) (s : S) → applied (services.compare_and_swap e n s).1 ≡ applied s
  pub loaded :
      (s : S) {d : Settings} → (services.load s).0 ≡ ok d → (stored (services.load s).1 ≡ d)
  pub taken :
      (n : Settings) (s : S)
      → (services.update_settings n s).0 ≡ ok tt
      → applied (services.update_settings n s).1 ≡ n
  pub kept :
      (n : Settings) (s : S) {m : String}
      → (services.update_settings n s).0 ≡ err m
      → applied (services.update_settings n s).1 ≡ applied s
  pub update_aside : (n : Settings) (s : S) → stored (services.update_settings n s).1 ≡ stored s

module _ {S : Type 0} (services : Services S) (stored applied : S → Settings)
    (laws : Laws services stored applied) where
  -- The file and the session have the settings that the router believes current.
  pub record Agrees (r : Router S) : Type 0 where
    pub in_file : stored r.outside ≡ r.current
    pub in_session : applied r.outside ≡ r.current

  -- What each end of an update of `r` means.
  abbrev pub Outcome : Settings → Router S → Result RouterError (Unit {0}) → Router S → Type 0
  Outcome selection r (ok u) r' = Agrees r' × (r'.current ≡ selection)
  Outcome selection r (err superseded) r' = Agrees r'
  Outcome selection r (err (refused m)) r' = Agrees r' × (r'.current ≡ r.current)
  Outcome selection r (err (not_rolled_back m)) r' = Agrees r' ⊎ (r'.current ≡ r.current)
  Outcome selection r (err (failed m)) r' = r'.current ≡ r.current

  apply_observed-Agrees :
      (d : Settings) (r : Router S)
      → stored r.outside ≡ d
      → (apply_observed services d r).0 ≡ ok tt
      → Agrees (apply_observed services d r).1
  unfolding apply_observed
  apply_observed-Agrees d r h k = elim (Result-cases (services.update_settings d r.outside).0) [
    | inl (u, e) ↦ rw e (record {
      in_file = laws.update_aside d r.outside ∙ h;
      in_session = laws.taken d r.outside e;
    })
    | inr (m, e) ↦ cc
  ]

  synchronize-Agrees :
      (r : Router S) → (synchronize services r).0 ≡ ok tt → Agrees (synchronize services r).1
  unfolding synchronize
  synchronize-Agrees r k = elim (Result-cases (services.load r.outside).0) [
    | inl (d, e) ↦ rw e (
        apply_observed-Agrees d (record r { outside = (services.load r.outside).1 })
          (laws.loaded r.outside e) (rw e at k))
    | inr (m, e) ↦ cc
  ]

  apply_observed-kept :
      (d : Settings) (r : Router S) {m : String}
      → (apply_observed services d r).0 ≡ err m
      → (apply_observed services d r).1.current ≡ r.current
  unfolding apply_observed
  apply_observed-kept d r k = elim (Result-cases (services.update_settings d r.outside).0) [
    | inl (u, e) ↦ cc
    | inr (m, e) ↦ rw e refl
  ]

  synchronize-kept :
      (r : Router S) {m : String}
      → (synchronize services r).0 ≡ err m
      → (synchronize services r).1.current ≡ r.current
  unfolding synchronize
  synchronize-kept r k = elim (Result-cases (services.load r.outside).0) [
    | inl (d, e) ↦
        rw e
          (apply_observed-kept d (record r { outside = (services.load r.outside).1 }) (rw e at k))
    | inr (m, e) ↦ rw e refl
  ]

  synchronize-Ends :
      (r : Router S)
      → Agrees (synchronize services r).1 ⊎ ((synchronize services r).1.current ≡ r.current)
  synchronize-Ends r = elim (Result-cases (synchronize services r).0) [
    | inl (u, e) ↦ inl (synchronize-Agrees r e)
    | inr (m, e) ↦ inr (synchronize-kept r e)
  ]

  give_way-Outcome :
      (selection : Settings) (r0 r : Router S)
      → r.current ≡ r0.current
      → Outcome selection r0 (give_way services r).0 (give_way services r).1
  unfolding give_way
  give_way-Outcome selection r0 r same = elim (Result-cases (synchronize services r).0) [
    | inl (u, e) ↦ rw e (synchronize-Agrees r e)
    | inr (m, e) ↦ rw e (synchronize-kept r e ∙ same)
  ]

  roll_back-Outcome :
      (m : String) (selection : Settings) (r0 r : Router S)
      → r.current ≡ r0.current
      → applied r.outside ≡ r0.current
      → IsOffered r0.current
      → Outcome selection r0
          (roll_back services m selection r).0
          (roll_back services m selection r).1
  unfolding roll_back
  roll_back-Outcome m selection r0 r same h offered =
      let back : normalize_settings (settings_value r.current) ≡ r.current =
        settings_back r.current (subst IsOffered (sym same) offered) in
      let r' = record r { outside = (services.compare_and_swap selection r.current r.outside).1 } in
      elim (Result-cases (services.compare_and_swap selection r.current r.outside).0) [
        | inr (x, e) ↦ rw e (inr same)
        | inl (false, e) ↦ rw e (elim (synchronize-Ends r') [
          | inl agrees ↦ inl agrees
          | inr current ↦ inr (current ∙ same)
        ])
        | inl (true, e) ↦ rw e (
          record {
            in_file = (laws.swapped selection r.current r.outside e).0 ∙ back;
            in_session = laws.swap_aside selection r.current r.outside ∙ h ∙ sym same;
          },
          same,
        )
      ]

  publish-Outcome :
      (selection : Settings) (r0 r : Router S)
      → r.current ≡ r0.current
      → applied r.outside ≡ r0.current
      → stored r.outside ≡ selection
      → IsOffered r0.current
      → Outcome selection r0 (publish services selection r).0 (publish services selection r).1
  unfolding publish
  publish-Outcome selection r0 r same h k offered =
      elim (Result-cases (services.update_settings selection r.outside).0) [
        | inl (u, e) ↦ rw e (
          record {
            in_file = laws.update_aside selection r.outside ∙ k;
            in_session = laws.taken selection r.outside e;
          },
          refl,
        )
        | inr (m, e) ↦ rw e (
            roll_back-Outcome m selection r0
              (record r { outside = (services.update_settings selection r.outside).1 }) same
              (laws.kept selection r.outside e ∙ h) offered)
      ]

  -- An update to settings whose model their provider offers, of services that keep their promises,
  -- where the file, the session and the router agree: they agree again on the selection if it
  -- returns, on the previous settings if the session refused and the file was put back, and on
  -- another process's if that was first and they were taken over. Where a write, the rollback or
  -- taking over another's settings throws, the router keeps its settings, or agrees with the others.
  pub update-Outcome :
      (selection : Settings) (r : Router S)
      → IsOffered selection
      → Agrees r
      → Outcome selection r (update services selection r).0 (update services selection r).1
  unfolding update
  update-Outcome selection r offered h =
      let s = (services.compare_and_swap r.current selection r.outside).1 in
      elim (Result-cases (services.compare_and_swap r.current selection r.outside).0) [
        | inr (m, e) ↦ rw e refl
        | inl (false, e) ↦ rw e (give_way-Outcome selection r (record r { outside = s }) refl)
        | inl (true, e) ↦ rw e (
            publish-Outcome selection r (record r { outside = s }) refl
              (laws.swap_aside r.current selection r.outside ∙ h.in_session)
              ((laws.swapped r.current selection r.outside e).0 ∙ settings_back selection offered)
              (subst IsOffered h.in_file (laws.offered r.outside)))
      ]

-- ===== src/Lifecycle/Marker.antt =====
-- What leaves the marker of an execution as it is.
use honryu.Base.{
  ℕ, zero, suc, ◌≡◌, refl, ◌∙◌, List, [], ◌∷◌, Option, none, some, String, Result, ok, err,
}
use honryu.Base.Ints.{ℤ, pos, pos_part}
use honryu.Base.Text.{Text, chars}
use honryu.Base.Times.{Time}
use honryu.Execution.{Execution}
use honryu.LoadProfile.{Entry, Profile, total_engines}
use honryu.Run.{virtual_users}
use honryu.Lifecycle.Ports.{Ports, PortError}
use honryu.Lifecycle.Laws.{RunLaws}
use honryu.Lifecycle.Trigger.{
  or_release, reserve_each, upload_read, record_owner, fan_out_engines, snapshot_config,
  snapshot_shards, snapshot_configs, mark_each, record_launch, deployed_config_key, run_shard_key,
}

module _ {W : Type 0} (p : Ports W) (laws : RunLaws p) (e : ℤ) where
  -- The marker of the execution is as it was.
  abbrev pub Same : W → W → Type 0
  Same w w' = p.current_run e w' ≡ p.current_run e w

  -- The execution runs nothing.
  abbrev pub IsIdle : W → Type 0
  IsIdle w = p.current_run e w ≡ ok none

  pub reserve_each-IsIdle :
      (clusters : List Text) (tenant units x : ℤ) (from to : Time) (w : W)
      → IsIdle w
      → IsIdle (reserve_each p clusters tenant units from to x w).1
  unfolding reserve_each or_release
  reserve_each-IsIdle [] tenant units x from to w idle = idle
  reserve_each-IsIdle (c ∷ rest) tenant units x from to w idle =
      released (p.reserve tenant c units from to x w)
        (laws.reserve_idle e tenant units x c from to w idle)
        (λ w'. reserve_each-IsIdle rest tenant units x from to w')
    where
      released :
          (r : Option PortError × W)
          → IsIdle r.1
          → ((w' : W) → IsIdle w' → IsIdle (reserve_each p rest tenant units from to x w').1)
          → IsIdle (or_release p x r (reserve_each p rest tenant units from to x)).1
      released (none, w') still next = next w' still
      released (some f, w') still next = laws.release_keeps e x w' ∙ still

  pub upload_read-Same :
      (key : Text) (r : Result PortError Text) (w : W) → Same w (upload_read p key r w)
  unfolding upload_read
  upload_read-Same key (err f) w = refl
  upload_read-Same key (ok raw) w = laws.upload_keeps e key raw w

  pub snapshot_shards-Same :
      (run scenario : ℤ) (i left : ℕ) (w : W) → Same w (snapshot_shards p run scenario i left w)
  unfolding snapshot_shards snapshot_config
  snapshot_shards-Same run scenario i zero w = refl
  snapshot_shards-Same run scenario i (suc left) w =
      let copied : W = snapshot_config p run scenario (pos i) w in
      snapshot_shards-Same run scenario (suc i) left copied
      ∙ upload_read-Same (run_shard_key run scenario (pos i) (chars "yml"))
          (p.download (deployed_config_key scenario (pos i)) w) w

  pub snapshot_configs-Same :
      (run : ℤ) (scenarios : List Entry) (w : W) → Same w (snapshot_configs p run scenarios w)
  unfolding snapshot_configs
  snapshot_configs-Same run [] w = refl
  snapshot_configs-Same run (ep ∷ scenarios) w =
      snapshot_configs-Same run scenarios
        (snapshot_shards p run ep.scenario_id 0 (pos_part ep.engines) w)
      ∙ snapshot_shards-Same run ep.scenario_id 0 (pos_part ep.engines) w

  pub mark_each-Same :
      (x : ℤ) (scenarios : List Entry) (w : W) → Same w (mark_each p x scenarios w).1
  unfolding mark_each
  mark_each-Same x [] w = refl
  mark_each-Same x (ep ∷ scenarios) w =
      mark_each-Same x scenarios (p.mark_scenario_running x ep.scenario_id w).1
      ∙ laws.mark_keeps e x ep.scenario_id w

  pub record_launch-Same :
      (coll : Execution) (ec : Profile) (x : ℤ) (w : W) → Same w (record_launch p coll ec x w).1
  unfolding record_launch
  record_launch-Same coll ec x w = owned (p.project_owner coll.project_id w)
    where
      owned : (r : Result PortError String) → Same w (record_owner p r coll ec x w)
      owned (err f) = refl
      owned (ok owner) =
          laws.launch_keeps e x (fan_out_engines (total_engines ec) coll) (virtual_users ec) owner w

-- ===== src/Payout/Refused.antt =====
-- What `schedulePayouts` commits when the client library refuses the inserts of the items, whose
-- errors the source discards.
use backend_go.Prelude.{
  ℕ, suc, false, ◌&&◌, List, [], ◌∷◌, select, length, replicate, ◌≡◌, refl, ◌∙◌, ap, arith,
}
use backend_go.Float.{Float64}
use backend_go.Database.{Session, done, refused, begin, exec, query, commit, rollback, with_script}
use backend_go.Store.{Intent, Tables}
use backend_go.Payout.Schedule.{
  Group, in_group, is_eligible, insert_payout, insert_item, set_total, insert_items, schedule_group,
}

record IsRefused (s : Session Tables) (n : ℕ) (w d : Tables) : Type 0 where
  usable : s.aborted ≡ false
  script : s.script ≡ replicate n refused
  view : s.work ≡ w
  committed : s.db ≡ d

exec_without_effect :
    (f : Tables → Tables) (s : Session Tables) (n : ℕ) (w d : Tables)
    → IsRefused s (suc n) w d
    → IsRefused (exec f s).1 n w d
unfolding exec
exec_without_effect f s n w d h = record {
  usable = ground arith;
  script = ground arith;
  view = ground arith;
  committed = ground arith;
}

module _ {F : Type 0} (fl : Float64 F) (now : ℕ) where
  open fl use {zero, add, parse}

  -- the sum of the received amounts, as the loop adds them
  abbrev pub sum_received : List Intent → F → F
  sum_received [] total = total
  sum_received (i ∷ intents) total = sum_received intents (add total (parse i.received))

  insert_items_without_effect :
      (payout : ℕ) (intents : List Intent) (total : F) (s : Session Tables) (w d : Tables)
      → IsRefused s (length intents) w d
      → ((insert_items fl now payout intents total s).0 ≡ sum_received intents total)
        × IsRefused (insert_items fl now payout intents total s).1 0 w d
  unfolding insert_items
  insert_items_without_effect payout [] total s w d h = (refl, h)
  insert_items_without_effect payout (i ∷ intents) total s w d h =
      insert_items_without_effect payout intents (add total (parse i.received)) _ w d (
        exec_without_effect (insert_item fl now s.next_id payout i.id (parse i.received))
          (record s { next_id = suc s.next_id }) (length intents) w d
          (record { usable = h.usable; script = h.script; view = h.view; committed = h.committed }))

  commit-set_total :
      (payout : ℕ) (total : F) (s : Session Tables) (w d : Tables)
      → IsRefused s 0 w d
      → (rollback (commit (exec (set_total fl now payout total) s).1).1).db
        ≡ set_total fl now payout total w
  unfolding exec commit rollback
  commit-set_total payout total s w d h = ground arith

  abbrev pub selected : Group → Tables → List Intent
  selected g t = select (λ i. in_group g i && is_eligible t.items i) t.intents

  -- If every insert of an item is refused and nothing else fails, the payout is committed with the
  -- total of all the group's intents, and no item is written.
  pub schedule_group_refused :
      (g : Group) (t : Tables)
      → (schedule_group fl now g
          (with_script t (done ∷ done ∷ done ∷ replicate (length (selected g t)) refused))).db
        ≡ set_total fl now 1 (sum_received (selected g t) zero) (insert_payout fl now 1 g t)
  unfolding schedule_group begin exec query
  schedule_group_refused g t =
      let rows = selected g t in
      let w = insert_payout fl now 1 g t in
      let s3 : Session Tables = record {
        db = t;
        work = w;
        aborted = false;
        script = replicate (length rows) refused;
        next_id = 2;
      } in
      let (total, r) =
        insert_items_without_effect 1 rows zero s3 w t
          (record { usable = refl; script = refl; view = refl; committed = refl }) in
      commit-set_total 1 (insert_items fl now 1 rows zero s3).0
        (insert_items fl now 1 rows zero s3).1 w t r
      ∙ ap (λ x. set_total fl now 1 x w) total

-- ===== src/JsonStore/Refines.antt =====
-- The JSON file store as the store of the scheduler.
use godelayq.Prelude.{
  ℕ, ◌≡◌, ◌≢◌, refl, sym, ap, ◌∙◌, inl, inr, true, false, some, String, string_discrete, if_neg,
}
use godelayq.Dict
use godelayq.Dict.Keys.{delete-Distinct}
use godelayq.Job.{JobSnapshot, is_terminal}
use godelayq.Scheduler.{Store}
use godelayq.Scheduler.Laws.{StoreLaws, stored}
use godelayq.JsonStore.{JsonFileStore, update, save, delete, load_all}
use godelayq.JsonStore.Live.{find_id-map, delete-Keyed}
use godelayq.JsonStore.Trim.{Sound, update-Retained}

-- No write of the map reports an error.
abbrev pub json_ops : Store JsonFileStore
json_ops = record {
  save = λ now j s. (save s now j, true);
  update = λ now snap s. (update s now snap, true);
  delete = λ id s. (delete s id, true);
  load_all = λ s. some (load_all s);
}

stored-lookup :
    (s : JsonFileStore) (id : String) → Sound s → stored json_ops s id ≡ Dict.lookup id s.jobs
unfolding load_all
stored-lookup s id v = find_id-map id s.jobs v.keyed

update-Sound :
    (s : JsonFileStore) (now : ℕ) (snap : JobSnapshot) → Sound s → Sound (update s now snap)
update-Sound s now snap v = elim (update-Retained s now snap v) [
  | inl (live, same, sound) ↦ sound
  | inr (over, r) ↦ record { distinct = r.distinct; keyed = r.keyed }
]

delete-Sound : (s : JsonFileStore) (id : String) → Sound s → Sound (delete s id)
unfolding delete
delete-Sound s id v = record {
  distinct = delete-Distinct id s.jobs v.distinct;
  keyed = delete-Keyed id s.jobs v.keyed;
}

update_kept :
    (now : ℕ) (snap : JobSnapshot) (s : JsonFileStore) (id : String) (t : JobSnapshot)
    → Sound s
    → id ≢ snap.id
    → Dict.lookup id s.jobs ≡ some t
    → is_terminal t.status ≡ false
    → Dict.lookup id (update s now snap).jobs ≡ some t
update_kept now snap s id t v ne at live =
    let inserted =
      Dict.lookup-insert snap.id id snap s.jobs
      ∙ if_neg (string_discrete snap.id id) (λ e. ne (sym e)) _ _
      ∙ at in
    elim (update-Retained s now snap v) [
      | inl (active, same, sound) ↦ ap (Dict.lookup id) same ∙ inserted
      | inr (over, r) ↦ r.live id t inserted live
    ]

-- The JSON file store, in its states with one entry for each id, has the laws that the scheduler
-- relies on, its retention of finished jobs included.
pub json_ops-StoreLaws : StoreLaws json_ops Sound
unfolding save delete
json_ops-StoreLaws = record {
  update-Valid = λ now snap s v. update-Sound s now snap v;
  delete-Valid = λ id s v. delete-Sound s id v;
  save-eq-update = λ now j s. refl;
  stored-update = λ now snap s v live.
      stored-lookup (update s now snap) snap.id (update-Sound s now snap v)
      ∙ elim (update-Retained s now snap v) [
        | inl (active, same, sound) ↦
            ap (Dict.lookup snap.id) same ∙ Dict.lookup-insert_self snap.id snap s.jobs
        | inr (over, r) ↦ absurd (cc)
      ];
  stored_kept = λ now snap s id t v ne at live.
      stored-lookup (update s now snap) id (update-Sound s now snap v)
      ∙ update_kept now snap s id t v ne (sym (stored-lookup s id v) ∙ at) live;
  stored-delete = λ id s v.
      stored-lookup (delete s id) id (delete-Sound s id v) ∙ Dict.lookup-delete_self id s.jobs;
  stored-delete_other = λ id other s v ne.
      stored-lookup (delete s id) other (delete-Sound s id v)
      ∙ Dict.lookup-delete id other s.jobs
      ∙ if_neg (string_discrete id other) ne _ _
      ∙ sym (stored-lookup s other v);
}

-- ===== src/Template/Pool/Lease.antt =====
-- `TemplateLease` of vmm/sandbox/src/template/pool.rs.
use kuasar.Prelude.{Option, none, some, if◌then◌else◌}
use kuasar.Prelude.Exec.{pure, fail}
use kuasar.Template.Disk.{Io}
use kuasar.Template.Pool.Acquire.{release}
use kuasar.Template.Pool.Refs.{end_restore, deref}
use kuasar.Template.Pool.State.{Action, panicked}
use kuasar.Template.Types.{PooledTemplate, environment, warm_fork, continuation, is_shared}

pub data RestoreLeaseKind : Type 0 where
  shared_lease shared_ref exclusive : RestoreLeaseKind

pub record TemplateLease : Type 0 where
  pub tmpl : Option PooledTemplate
  pub kind : RestoreLeaseKind

abbrev lease : PooledTemplate → RestoreLeaseKind → Action TemplateLease
lease t k = pure (record { tmpl = some t; kind = k })

unfoldable pub new : PooledTemplate → Action TemplateLease
new t p = elim t.snapshot_type [
  | environment ↦ lease t shared_lease p
  | warm_fork ↦ if is_shared p.lease_mode then lease t shared_ref p else lease t exclusive p
  | continuation ↦ fail panicked p
]

abbrev complete_kind : Io → PooledTemplate → RestoreLeaseKind → Action (Unit {0})
complete_kind io t shared_lease = end_restore io t.id
complete_kind io t shared_ref = pure tt
complete_kind io t exclusive = pure tt

unfoldable pub complete : Io → TemplateLease → Action (Unit {0})
complete io l p = elim l.tmpl [ none ↦ fail panicked p | some t ↦ complete_kind io t l.kind p ]

abbrev fail_kind : Io → PooledTemplate → RestoreLeaseKind → Action (Unit {0})
fail_kind io t shared_lease = end_restore io t.id
fail_kind io t shared_ref = deref io t.id
fail_kind io t exclusive = release io t

-- `TemplateLease::fail`.
unfoldable pub fail_lease : Io → TemplateLease → Action (Unit {0})
fail_lease io l p = elim l.tmpl [ none ↦ fail panicked p | some t ↦ fail_kind io t l.kind p ]

-- ===== src/Domain/Auth.antt =====
-- `ExportType`, `AuthType` and `ProducesType` of crates/nclav-domain/src/types.rs.
use nclav.Base.{String, ◌≡◌, ◌↔◌, Bool, true, false, List, [], ◌∷◌, arith, Eq, any, ◌==◌}

pub data ExportType : Type 0 where
  http tcp queue : ExportType

pub data AuthType : Type 0 where
  none token oauth mtls native : AuthType

pub data ProducesType : Type 0 where
  http tcp queue : ProducesType

-- `PartialEq`, derived
unfoldable pub auth_beq : AuthType → AuthType → Bool
auth_beq none none = true
auth_beq token token = true
auth_beq oauth oauth = true
auth_beq mtls mtls = true
auth_beq native native = true
auth_beq _ _ = false

pub auth_beq_iff : (a b : AuthType) → (auth_beq a b ≡ true) ↔ (a ≡ b)
unfolding auth_beq
auth_beq_iff a b = ground arith

instance abbrev pub auth_eq : Eq AuthType
auth_eq = record { test = auth_beq; test_iff = auth_beq_iff }

unfoldable pub export_type_beq : ExportType → ExportType → Bool
export_type_beq ExportType.http ExportType.http = true
export_type_beq ExportType.tcp ExportType.tcp = true
export_type_beq ExportType.queue ExportType.queue = true
export_type_beq _ _ = false

pub export_type_beq_iff : (a b : ExportType) → (export_type_beq a b ≡ true) ↔ (a ≡ b)
unfolding export_type_beq
export_type_beq_iff a b = ground arith

instance abbrev pub export_type_eq : Eq ExportType
export_type_eq = record { test = export_type_beq; test_iff = export_type_beq_iff }

-- `Display`
unfoldable pub export_type_name : ExportType → String
export_type_name ExportType.http = "http"
export_type_name ExportType.tcp = "tcp"
export_type_name ExportType.queue = "queue"

unfoldable pub auth_name : AuthType → String
auth_name none = "none"
auth_name token = "token"
auth_name oauth = "oauth"
auth_name mtls = "mtls"
auth_name native = "native"

unfoldable pub produces_name : ProducesType → String
produces_name ProducesType.http = "http"
produces_name ProducesType.tcp = "tcp"
produces_name ProducesType.queue = "queue"

unfoldable pub compatible_auth_types : ExportType → List AuthType
compatible_auth_types ExportType.http = none ∷ token ∷ oauth ∷ mtls ∷ []
compatible_auth_types ExportType.tcp = none ∷ mtls ∷ native ∷ []
compatible_auth_types ExportType.queue = none ∷ token ∷ native ∷ []

-- `contains` on the slice of compatible types
unfoldable pub is_auth_compatible : ExportType → AuthType → Bool
unfolding compatible_auth_types any auth_beq
is_auth_compatible t auth = any (λ a. a == auth) (compatible_auth_types t)

unfoldable pub required_outputs : ProducesType → List String
required_outputs ProducesType.http = "hostname" ∷ "port" ∷ []
required_outputs ProducesType.tcp = "hostname" ∷ "port" ∷ []
required_outputs ProducesType.queue = "queue_url" ∷ []

-- `ExportType::from(&ProducesType)`
unfoldable pub export_type_of : ProducesType → ExportType
export_type_of ProducesType.http = ExportType.http
export_type_of ProducesType.tcp = ExportType.tcp
export_type_of ProducesType.queue = ExportType.queue

-- ===== src/Host/Services/Opposite.antt =====
-- How the two operators of the conditions on services stand to each other.
use Prim.Native.String.{◌++◌ as ◌⧺◌}
use troubleshoot.Prelude.{String, Bool, true, List}
use troubleshoot.Host.Services.{ServiceInfo, first_service}

-- some service matches the name
unfoldable pub known_service : String → List ServiceInfo → Bool
unfolding first_service
known_service name services = first_service (λ s. true) name services

-- ===== src/Services/Age/Tests.antt =====
-- The age of a pod and of a namespace that were made a day, five minutes and seven seconds ago.
use k8s_pod_manager_graphql.Prelude.{◌≡◌, refl}
use k8s_pod_manager_graphql.Prelude.Text.{show_nat, join}
use k8s_pod_manager_graphql.Services.Age.{
  part, first_two, format_duration, format_namespace_duration,
}
use k8s_pod_manager_graphql.Services.Sample.{age}

pod_age : format_duration age ≡ "1d5m"
unfolding format_duration part first_two join show_nat
pod_age = refl

namespace_age : format_namespace_duration age ≡ "1d"
unfolding format_namespace_duration show_nat
namespace_age = refl

-- ===== src/Tests/Reasons.antt =====
-- Cancellation reasons and resource keys.
use skytest_agent.Prelude.{◌≡◌, ◌&&◌, refl, some}
use skytest_agent.Status.{cancelled, status_eq}
use skytest_agent.Cancellation.{user_group, cancellation_reason, is_user_initiated_cancellation}
use skytest_agent.Cancellation.People.{is_stop_message, is_user_initiated_cancellation_lem}
use skytest_agent.Runners.Resource.Keys.{build_host_resource_key-injective}
use skytest_agent.Tests.Data.{phone}

is_user_initiated_cancellation_lem_example :
    is_user_initiated_cancellation cancelled (some (cancellation_reason user_group))
    ≡ (status_eq cancelled cancelled && is_stop_message (some (cancellation_reason user_group)))
is_user_initiated_cancellation_lem_example =
    is_user_initiated_cancellation_lem cancelled (some (cancellation_reason user_group))

build_host_resource_key-injective_example : phone ≡ phone
build_host_resource_key-injective_example = build_host_resource_key-injective phone phone refl

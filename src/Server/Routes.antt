-- ===== src/Server/Routes.antt =====
-- internal/server/server.go: the routes of `setupRoutes`. A handler is its name, and what stands
-- before it: nothing, `handleAdminAuth` or `userAuth`.
use cli_relay.Prelude.{String, List, [], ◌∷◌}
use cli_relay.Server.Router.{Route}

pub data Guard : Type 0 where
  unguarded : Guard
  admin_auth : Guard
  user_auth : Guard

pub record Endpoint : Type 0 where
  pub name : String
  pub before : Guard

abbrev on : String → String → Guard → String → Route Endpoint
on method path before name = record {
  method = method;
  path = path;
  handler = record { name = name; before = before };
}

-- The routes in the order in which they are registered.
abbrev pub setup_routes : List (Route Endpoint)
setup_routes =
    on "POST" "/api/admin/login" unguarded "adminHandler.HandleLogin"
    ∷ on "GET" "/api/admin/init-status" unguarded "adminHandler.HandleInitStatus"
    ∷ on "POST" "/api/admin/setup" unguarded "adminHandler.HandleSetup"
    ∷ on "GET" "/api/admin/channels/oauth/callback" unguarded "adminHandler.OAuthCallback"
    ∷ on "GET" "/api/admin/dashboard" admin_auth "adminHandler.HandleDashboard"
    ∷ on "POST" "/api/admin/channels/oauth/auth-url" admin_auth "adminHandler.StartOAuth"
    ∷ on "GET" "/api/admin/channels/oauth/status" admin_auth "adminHandler.OAuthStatus"
    ∷ on "POST" "/api/admin/channels/oauth/bind" admin_auth "adminHandler.BindOAuthAccount"
    ∷ on "GET" "/api/admin/channels" admin_auth "adminHandler.HandleChannels"
    ∷ on "POST" "/api/admin/channels" admin_auth "adminHandler.HandleChannels"
    ∷ on "PUT" "/api/admin/channels" admin_auth "adminHandler.HandleChannels"
    ∷ on "DELETE" "/api/admin/channels" admin_auth "adminHandler.HandleChannels"
    ∷ on "GET" "/api/admin/accounts" admin_auth "adminHandler.HandleAccounts"
    ∷ on "POST" "/api/admin/accounts" admin_auth "adminHandler.HandleAccounts"
    ∷ on "PUT" "/api/admin/accounts" admin_auth "adminHandler.HandleAccounts"
    ∷ on "DELETE" "/api/admin/accounts" admin_auth "adminHandler.HandleAccounts"
    ∷ on "GET" "/api/admin/tokens" admin_auth "adminHandler.HandleTokens"
    ∷ on "POST" "/api/admin/tokens" admin_auth "adminHandler.HandleTokens"
    ∷ on "PUT" "/api/admin/tokens" admin_auth "adminHandler.HandleTokens"
    ∷ on "DELETE" "/api/admin/tokens" admin_auth "adminHandler.HandleTokens"
    ∷ on "GET" "/api/admin/plans" admin_auth "adminHandler.HandlePlans"
    ∷ on "POST" "/api/admin/plans" admin_auth "adminHandler.HandlePlans"
    ∷ on "PUT" "/api/admin/plans" admin_auth "adminHandler.HandlePlans"
    ∷ on "DELETE" "/api/admin/plans" admin_auth "adminHandler.HandlePlans"
    ∷ on "GET" "/api/admin/logs" admin_auth "adminHandler.HandleLogs"
    ∷ on "GET" "/api/admin/audit-logs" admin_auth "adminHandler.ListAuditLogs"
    ∷ on "GET" "/api/admin/users" admin_auth "adminHandler.ListUsers"
    ∷ on "PUT" "/api/admin/users" admin_auth "adminHandler.UpdateUser"
    ∷ on "DELETE" "/api/admin/users" admin_auth "adminHandler.DeleteUser"
    ∷ on "POST" "/api/user/register" unguarded "userHandler.Register"
    ∷ on "POST" "/api/user/login" unguarded "userHandler.Login"
    ∷ on "POST" "/api/user/refresh" unguarded "userHandler.RefreshToken"
    ∷ on "GET" "/api/user/profile" user_auth "userHandler.GetProfile"
    ∷ on "POST" "/api/user/password" user_auth "userHandler.UpdatePassword"
    ∷ on "POST" "/api/user/email" user_auth "userHandler.UpdateEmail"
    ∷ on "GET" "/api/user/keys" user_auth "userHandler.ListKeys"
    ∷ on "POST" "/api/user/keys" user_auth "userHandler.CreateKey"
    ∷ on "DELETE" "/api/user/keys/:keyID" user_auth "userHandler.DeleteKey"
    ∷ on "GET" "/api/user/usage" user_auth "userHandler.GetUsage"
    ∷ on "GET" "/api/user/usage/logs" user_auth "userHandler.GetUsageLogs"
    ∷ on "GET" "/api/user/subscription" user_auth "userHandler.GetSubscription"
    ∷ on "POST" "/api/user/subscription/:planID" user_auth "userHandler.Subscribe"
    ∷ on "POST" "/api/user/redeem" user_auth "userHandler.RedeemCode"
    ∷ on "GET" "/api/user/plans" user_auth "userHandler.ListPlans"
    ∷ []

-- ===== src/Gateway/Requests/Create.antt =====
-- `POST /orders` from the gateway (api-gateway/internal/delivery/http/order_handler.go) through the
-- gRPC server (order-service/internal/delivery/grpc/order_server.go) to the tables.
use mini_marketplace.Base.{◌≢◌, [], All}
use mini_marketplace.Base.Int.{IsInt32}
use mini_marketplace.Orders.Server as Proto
use mini_marketplace.Orders.Server.{failure, panic, Code, internal}
use mini_marketplace.Gateway.Requests.{CreateOrderItemRequest, CreateOrderRequest}

-- What the types and the tags of the requests say of a request that was bound: `min=1`, and a
-- quantity of `int32`.
pub record HasTags (req : CreateOrderRequest) : Type 0 where
  pub filled : req.items ≢ []
  pub fits : All (λ (it : CreateOrderItemRequest). IsInt32 it.quantity) req.items
